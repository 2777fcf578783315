-- ===== src/Log/Room.antt =====
-- The room for the format of a message (src/log.c).
use usbmuxd_win_mce.Base.{
  ℕ, ◌+◌, ◌/◌, ◌<◌, ◌≤◌, ◌≡◌, some, List, [], ◌∷◌, ◌++◌, arith, length, length-append, codes,
  decimal, ◌∙◌, inl, inr, Bool-cases,
}
use usbmuxd_win_mce.Log.{
  Log, Moment, Written, to_syslog, to_stderr, three_digits, syslog_format, stderr_format,
  usbmuxd_log, level_to_syslog_level,
}

abbrev pub text_of : Written → List ℕ
text_of (to_syslog priority text) = text
text_of (to_stderr text) = text

decimal-digit : (n : ℕ) (rest : List ℕ) → n < 10 → length (decimal 10 n rest) ≡ 1 + length rest
decimal-digit n rest h = ground arith

length-three_digits : (n : ℕ) → n < 1000 → length (three_digits n) ≡ 3
unfolding three_digits
length-three_digits n h = ground arith

length-syslog_format :
    (level : ℕ) (fmt : List ℕ) → level < 10 → length (syslog_format level fmt) ≡ 5 + length fmt
unfolding syslog_format
length-syslog_format level fmt h =
    rw (decimal-digit level (codes "] " ++ fmt ++ (10 ∷ [])) h, length-append fmt (10 ∷ []))
      (omega arith)

length-joined :
    (xs ys zs : List ℕ)
    → length (xs ++ codes "." ++ ys ++ codes "][" ++ zs) ≡ length xs + (length ys + length zs + 3)
length-joined xs ys zs =
    rw
      (
        length-append (xs ++ codes "." ++ ys ++ codes "][") zs,
        length-append (xs ++ codes "." ++ ys) (codes "]["),
        length-append (xs ++ codes ".") ys,
        length-append xs (codes "."),
      )
      (omega arith)

length-stderr_format :
    (now : Moment) (level : ℕ) (fmt : List ℕ)
    → level < 10
    → now.usec < 1000000
    → length now.clock ≡ 9
    → length (stderr_format now level fmt) ≡ 19 + length fmt
unfolding stderr_format
length-stderr_format now level fmt h u c =
    length-joined now.clock (three_digits (now.usec / 1000))
      (decimal 10 level (codes "] " ++ fmt ++ (10 ∷ [])))
    ∙ (let ms = length-three_digits (now.usec / 1000) (omega arith) in
        let digit = decimal-digit level (codes "] " ++ fmt ++ (10 ∷ [])) h in
        let ends = length-append fmt (10 ∷ []) in omega arith)

-- A message of a level that is logged is written, and its format and terminator fit the 20 + strlen(fmt)
-- bytes that are allocated for them, if the time is written with 9 characters before the microseconds.
pub usbmuxd_log_lem :
    (l : Log) (now : Moment) (level : ℕ) (fmt : List ℕ)
    → level < 10
    → level ≤ l.level
    → now.usec < 1000000
    → length now.clock ≡ 9
    → (out : Written) × (usbmuxd_log l now level fmt ≡ some out)
      × (length (text_of out) + 1 ≤ 20 + length fmt)
unfolding usbmuxd_log
usbmuxd_log_lem l now level fmt h k u c = elim (Bool-cases l.syslog) [
  | inl on ↦ (
    to_syslog (level_to_syslog_level level) (syslog_format level fmt),
    ground arith,
    (let fits = length-syslog_format level fmt h in omega arith),
  )
  | inr off ↦ (
    to_stderr (stderr_format now level fmt),
    ground arith,
    (let fits = length-stderr_format now level fmt h u c in omega arith),
  )
]
