-- ===== src/Main/Socket/Listening.antt =====
-- What create_socket leaves behind (src/main.c).
use usbmuxd_win_mce.Base.{
  ℕ, zero, suc, ◌≡◌, refl, Bool, true, false, not, ◌&&◌, ◌||◌, Option, none, some, List, [], ◌∷◌,
  ◌++◌, ℤ, pos, neg, pos_part, is_neg, arith, contains, ◌==◌, ==_refl, ==→eq, if◌then◌else◌, inl,
  inr, Bool-cases, Option-cases,
}
use usbmuxd_win_mce.Main.Host.{SocketHost}
use usbmuxd_win_mce.Main.Socket.{
  SocketCall, opens, closes, binds, listens_on, sets_nonblocking, unlinks, chmods, last_colon,
  address_of, bind_first, tcp_socket, is_blocked, unlink_fails, local_socket, bound_socket,
  start_listening, create_socket,
}

-- How far the one descriptor is that is open.
pub data Standing : Type 0 where
  nothing : Standing
  opened bound listening : ℕ → Standing

-- A call in its order; `none` where it is out of order: a second descriptor, a call for another one, or
-- one that is not open.
abbrev pub after_call : Standing → SocketCall → Option Standing
after_call nothing (opens fd) = some (opened fd)
after_call (opened fd) (closes f) = if fd == f then some nothing else none
after_call (opened fd) (binds f) = if fd == f then some (bound fd) else none
after_call (bound fd) (sets_nonblocking f) = if fd == f then some (bound fd) else none
after_call (bound fd) (listens_on f) = if fd == f then some (listening fd) else none
after_call st (unlinks path) = some st
after_call st (chmods path) = some st
after_call st call = none

abbrev pub after_calls : Standing → List SocketCall → Option Standing
after_calls st [] = some st
after_calls st (call ∷ calls) = elim (after_call st call) [
  | none ↦ none
  | some st' ↦ after_calls st' calls
]

-- The descriptor that is bound.
abbrev bound_of : Standing → Option ℕ
bound_of (bound fd) = some fd
bound_of st = none

abbrev pub result_of : Standing → ℤ
result_of (listening fd) = pos fd
result_of st = neg 1

after_calls-append :
    (st st' : Standing) (xs ys : List SocketCall)
    → after_calls st xs ≡ some st'
    → after_calls st (xs ++ ys) ≡ after_calls st' ys
after_calls-append st st' [] ys e = ground arith
after_calls-append st st' (x ∷ xs) ys e = elim (Option-cases (after_call st x)) [
  | inl wrong ↦ absurd (ground arith)
  | inr (next, right) ↦ ground (arith, after_calls-append next st' xs ys)
]

-- The calls are in order, and leave what is returned bound.
abbrev IsBound : Option ℕ × List SocketCall → Type 0
IsBound made =
    (st : Standing) × (after_calls nothing made.1 ≡ some st)
    × (made.0 ≡ bound_of st)
    × (result_of st ≡ neg 1)

IsBound-if :
    (b : Bool) (x y : Option ℕ × List SocketCall)
    → IsBound x
    → IsBound y
    → IsBound (if b then x else y)
IsBound-if true x y h k = h
IsBound-if false x y h k = k

-- A descriptor that is closed at once does not count.
IsBound-closed :
    (fd : ℕ) (made : Option ℕ × List SocketCall)
    → IsBound made
    → IsBound (made.0, opens fd ∷ closes fd ∷ made.1)
IsBound-closed fd made (st, order, same, quiet) =
    (st, ground (arith, ==_refl fd, order), same, quiet)

opens-binds-IsBound : (fd : ℕ) → IsBound (some fd, opens fd ∷ binds fd ∷ [])
opens-binds-IsBound fd = (bound fd, ground (arith, ==_refl fd), refl, refl)

module _ (host : SocketHost) where
  bind_first-IsBound : (i left : ℕ) → IsBound (bind_first host i left)
  unfolding bind_first
  bind_first-IsBound i zero = (nothing, refl, refl, refl)
  bind_first-IsBound i (suc left) =
      let rest = bind_first-IsBound (suc i) left in
      let fd = pos_part (host.socket i) in
      let next = bind_first host (suc i) left in
      IsBound-if (is_neg (host.socket i)) _ _ rest (
        IsBound-if (not (host.set_reuseaddr i)) _ _ (IsBound-closed fd next rest) (
          IsBound-if (not (host.bind i)) _ _ (IsBound-closed fd next rest)
            (opens-binds-IsBound fd)))

  tcp_socket-IsBound : (hostname port : List ℕ) → IsBound (tcp_socket host hostname port)
  unfolding tcp_socket
  tcp_socket-IsBound hostname port =
      elim (host.getaddrinfo hostname port)
        as (λ o. IsBound (elim o as (λ _. Option ℕ × List SocketCall) [
          | none ↦ (none, [])
          | some addresses ↦ bind_first host 0 addresses
        ])) [ none ↦ (nothing, refl, refl, refl) | some addresses ↦ bind_first-IsBound 0 addresses ]

  local_socket-IsBound : (path : List ℕ) → IsBound (local_socket host path)
  unfolding local_socket
  local_socket-IsBound path =
      let fd = pos_part host.local_socket in
      IsBound-if (is_blocked host path || unlink_fails host path) _ _ (nothing, refl, refl, refl)
        (IsBound-if (is_neg host.local_socket) _ _ (nothing, refl, refl, refl)
          (IsBound-if (not (host.local_bind path)) _ _ (opened fd, refl, refl, refl)
            (bound fd, ground (arith, ==_refl fd), refl, refl)))

  bound_socket-IsBound : (socket_addr : List ℕ) → IsBound (bound_socket host socket_addr)
  unfolding bound_socket
  bound_socket-IsBound socket_addr =
      elim (last_colon socket_addr)
        as (λ o. IsBound (elim o as (λ _. Option ℕ × List SocketCall) [
          | none ↦ local_socket host socket_addr
          | some (hostname, port) ↦ tcp_socket host hostname port
        ])) [
          | none ↦ local_socket-IsBound socket_addr
          | some (hostname, port) ↦ tcp_socket-IsBound hostname port
        ]

  start_listening_lem :
      (made : Option ℕ) (calls : List SocketCall)
      → IsBound (made, calls)
      → (st : Standing) × (after_calls nothing (start_listening host made calls).1 ≡ some st)
        × ((start_listening host made calls).0 ≡ result_of st)
  unfolding start_listening
  start_listening_lem none calls (st, order, same, quiet) = (st, order, ground arith)
  start_listening_lem (some fd) calls (bound f, order, same, quiet) =
      let e : f ≡ fd = ground arith in
      let calls' =
        if not (is_neg host.get_flags) && host.set_nonblocking
        then calls ++ (sets_nonblocking fd ∷ [])
        else calls in
      let still : after_calls nothing calls' ≡ some (bound fd) = ground (
        arith,
        after_calls-append nothing (bound fd) calls (sets_nonblocking fd ∷ []),
        ==_refl fd,
      ) in
      elim (Bool-cases (host.listen fd)) [
        | inl ok ↦ (
          listening fd,
          ground (
            arith,
            after_calls-append nothing (bound fd) calls' (listens_on fd ∷ []),
            ==_refl fd,
          ),
          ground arith,
        )
        | inr failed ↦ (bound fd, ground arith, ground arith)
      ]
  start_listening_lem (some fd) calls (nothing, order, same, quiet) = absurd (ground arith)
  start_listening_lem (some fd) calls (opened f, order, same, quiet) = absurd (ground arith)
  start_listening_lem (some fd) calls (listening f, order, same, quiet) = absurd (ground arith)

  -- Whatever the system answers, create_socket makes its calls in their order, with one descriptor open
  -- at a time: an address that cannot be used has its descriptor closed before the next is tried. It
  -- returns the descriptor that it left open, bound and listening, and else -1 with none that listens.
  pub create_socket_lem :
      (listen_addr : Option (List ℕ))
      → (st : Standing) × (after_calls nothing (create_socket host listen_addr).1 ≡ some st)
        × ((create_socket host listen_addr).0 ≡ result_of st)
  unfolding create_socket
  create_socket_lem listen_addr =
      let made = bound_socket host (address_of listen_addr) in
      start_listening_lem made.0 made.1 (bound_socket-IsBound (address_of listen_addr))

last_colon-none : (text : List ℕ) → last_colon text ≡ none → contains b':' text ≡ false
unfolding last_colon
last_colon-none [] e = refl
last_colon-none (c ∷ cs) e = elim (Option-cases (last_colon cs)) [
  | inl no_more ↦ ground (arith, last_colon-none cs no_more)
  | inr ((before, behind), more) ↦ absurd (ground arith)
]

-- The last colon splits an address: a port has no colon.
pub last_colon_lem :
    (text before behind : List ℕ)
    → last_colon text ≡ some (before, behind)
    → (text ≡ before ++ (b':' ∷ behind)) × (contains b':' behind ≡ false)
unfolding last_colon
last_colon_lem [] before behind e = cc
last_colon_lem (c ∷ cs) before behind e = elim (Option-cases (last_colon cs)) [
  | inl no_more ↦ ground (arith, last_colon-none cs no_more, ==→eq c b':')
  | inr ((some_before, some_behind), more) ↦
      ground (arith, last_colon_lem cs some_before some_behind more)
]
