-- ===== src/Main/Privileges/Changed.antt =====
-- Privileges that are dropped are gone (src/main.c).
use usbmuxd_win_mce.Base.{
  ℕ, ◌≡◌, ◌≢◌, ◌⊎◌, inl, inr, refl, true, false, not, ◌&&◌, ◌||◌, ◌==◌, some, List, [], ◌∷◌, arith,
  is_neg, Bool-cases, Option-cases,
}
use usbmuxd_win_mce.Main.Host.{Host, Passwd}
use usbmuxd_win_mce.Main.Options.{Options}
use usbmuxd_win_mce.Main.Privileges.{
  Dropped, IdCall, keeps, drops, refuses, calls_initgroups, calls_setgid, calls_setuid,
  check_dropped, become, drop_privileges,
}

module _ (host : Host) where
  -- The user to change to.
  pub record IsUser (o : Options) (pw : Passwd) : Type 0 where
    pub name : List ℕ
    pub asked : o.drop_user ≡ some name
    pub there : host.getpwnam name ≡ some pw

  -- The process is the user for good.
  pub record IsGone (pw : Passwd) : Type 0 where
    pub no_root : pw.uid ≢ 0
    pub groups_set : is_neg (host.initgroups pw.gid) ≡ false
    pub gid_set : is_neg (host.setgid pw.gid) ≡ false
    pub uid_set : is_neg (host.setuid pw.uid) ≡ false
    pub no_return : host.can_return ≡ false
    pub is_uid : host.getuid ≡ pw.uid
    pub is_gid : host.getgid ≡ pw.gid

  -- The calls are made in this order, each but the last one made before the refusal with success: the
  -- groups, the group id, the user id, and the attempt to be root again.
  pub data Attempts (pw : Passwd) : List IdCall → Type 0 where
    groups_refused :
        is_neg (host.initgroups pw.gid) ≡ true → Attempts pw (calls_initgroups pw.gid ∷ [])
    gid_refused :
        is_neg (host.initgroups pw.gid) ≡ false
        → is_neg (host.setgid pw.gid) ≡ true
        → Attempts pw (calls_initgroups pw.gid ∷ calls_setgid pw.gid ∷ [])
    uid_refused :
        is_neg (host.initgroups pw.gid) ≡ false
        → is_neg (host.setgid pw.gid) ≡ false
        → is_neg (host.setuid pw.uid) ≡ true
        → Attempts pw (calls_initgroups pw.gid ∷ calls_setgid pw.gid ∷ calls_setuid pw.uid ∷ [])
    not_gone :
        is_neg (host.initgroups pw.gid) ≡ false
        → is_neg (host.setgid pw.gid) ≡ false
        → is_neg (host.setuid pw.uid) ≡ false
        → Attempts pw (
            calls_initgroups pw.gid
            ∷ calls_setgid pw.gid
            ∷ calls_setuid pw.uid
            ∷ calls_setuid 0
            ∷ [])

  abbrev pub AreDropped : Options → Dropped → Type 0
  AreDropped o keeps =
      (o.drop_privileges ≡ false)
      ⊎ ((host.is_root ≡ false) ⊎ ((pw : Passwd) × IsUser o pw × (pw.uid ≡ 0)))
  AreDropped o (drops calls) =
      (pw : Passwd) × IsUser o pw
      × IsGone pw
      × (calls
          ≡ calls_initgroups pw.gid
            ∷ calls_setgid pw.gid
            ∷ calls_setuid pw.uid
            ∷ calls_setuid 0
            ∷ [])
  AreDropped o (refuses res calls) =
      (is_neg res ≡ true)
      × ((calls ≡ []) ⊎ ((pw : Passwd) × IsUser o pw × (pw.uid ≢ 0) × Attempts pw calls))

  check_dropped_lem :
      (o : Options) (pw : Passwd)
      → IsUser o pw
      → pw.uid ≢ 0
      → is_neg (host.initgroups pw.gid) ≡ false
      → is_neg (host.setgid pw.gid) ≡ false
      → is_neg (host.setuid pw.uid) ≡ false
      → AreDropped o (become host pw)
  unfolding become check_dropped
  check_dropped_lem o pw user z g i u = elim (Bool-cases host.can_return) [
    | inl back ↦ simp (g, i, u, back) (refl, inr (pw, user, z, not_gone g i u))
    | inr away ↦ elim (Bool-cases ((host.getuid == pw.uid) && (host.getgid == pw.gid))) [
      | inl same ↦
          let is_uid : host.getuid ≡ pw.uid = ground arith in
          let is_gid : host.getgid ≡ pw.gid = ground arith in
          let test : (not (host.getuid == pw.uid) || not (host.getgid == pw.gid)) ≡ false =
            ground arith in
          simp (g, i, u, away, test)
            (
              pw,
              user,
              record {
                no_root = z;
                groups_set = g;
                gid_set = i;
                uid_set = u;
                no_return = away;
                is_uid = is_uid;
                is_gid = is_gid;
              },
              refl,
            )
      | inr other ↦
          let test : (not (host.getuid == pw.uid) || not (host.getgid == pw.gid)) ≡ true =
            ground arith in
          simp (g, i, u, away, test) (refl, inr (pw, user, z, not_gone g i u))
    ]
  ]

  become_lem :
      (o : Options) (pw : Passwd) → IsUser o pw → pw.uid ≢ 0 → AreDropped o (become host pw)
  unfolding become
  become_lem o pw user z = elim (Bool-cases (is_neg (host.initgroups pw.gid))) [
    | inl g ↦ rw g (g, inr (pw, user, z, groups_refused g))
    | inr g ↦ elim (Bool-cases (is_neg (host.setgid pw.gid))) [
      | inl i ↦ rw (g, i) (i, inr (pw, user, z, gid_refused g i))
      | inr i ↦ elim (Bool-cases (is_neg (host.setuid pw.uid))) [
        | inl u ↦ rw (g, i, u) (u, inr (pw, user, z, uid_refused g i u))
        | inr u ↦ check_dropped_lem o pw user z g i u
      ]
    ]
  ]

  -- Whatever the options and the system's answers: main keeps its privileges only where it is not asked to drop
  -- them, is not root, or the user is root; it drops them by initgroups, setgid and setuid in this order and with
  -- success, after which setuid(0) failed and the ids are the user's; and where it terminates, with a
  -- negative result, each of the calls that it made but the last had succeeded and the calls were the
  -- first ones of that order.
  pub drop_privileges_lem : (o : Options) → AreDropped o (drop_privileges host o)
  unfolding drop_privileges
  drop_privileges_lem o = elim (Bool-cases (o.drop_privileges && host.is_root)) [
    | inr unchanged ↦ rw unchanged (elim (Bool-cases o.drop_privileges) [
      | inl asked ↦ inr (inl (ground arith))
      | inr unasked ↦ inl unasked
    ])
    | inl asked_root ↦ rw asked_root (elim (Option-cases o.drop_user) [
      | inl nobody ↦ simp (nobody) (refl, inl refl)
      | inr (name, asked) ↦ elim (Option-cases (host.getpwnam name)) [
        | inl unknown ↦ simp (asked, unknown) (refl, inl refl)
        | inr (pw, there) ↦
            let user : IsUser o pw = record { name = name; asked = asked; there = there } in
            elim (Bool-cases (pw.uid == 0)) [
              | inl root ↦ simp (asked, there, root) (inr (inr (pw, user, ground arith)))
              | inr other ↦ simp (asked, there, other) (become_lem o pw user (ground arith))
            ]
      ]
    ])
  ]
