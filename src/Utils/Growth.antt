-- ===== src/Utils/Growth.antt =====
-- The list of descriptors refines a sequence of entries (src/utils.c).
use usbmuxd_win_mce.Base.{
  ℕ, ◌≤◌, ◌<◌, ◌≡◌, List, [], ◌∷◌, ◌++◌, arith, length, length-append, map, append_assoc,
  append-nil,
}
use usbmuxd_win_mce.State.{Events}
use usbmuxd_win_mce.Utils.{FdOwner, PollFd, FdList, fdlist_add, fdlist_add_all}

-- The arrays have room for the entries, and for one at least.
pub record IsRoomy (l : FdList) : Type 0 where
  pub fits : length l.pollfds ≤ l.capacity
  pub some_room : 0 < l.capacity

abbrev pub entry : FdOwner → ℕ × Events → PollFd
entry owner (fd, events) = record { owner = owner; fd = fd; events = events }

fdlist_add-IsRoomy :
    (l : FdList) (owner : FdOwner) (fd : ℕ) (events : Events)
    → IsRoomy l
    → IsRoomy (fdlist_add l owner fd events)
unfolding fdlist_add
fdlist_add-IsRoomy l owner fd events v = record {
  fits = ground (
    arith,
    v.fits,
    v.some_room,
    length-append l.pollfds (record { owner = owner; fd = fd; events = events } ∷ []),
  );
  some_room = ground (arith, v.some_room);
}

-- The list refines a sequence: adding entries to one that has room appends them in their order, with
-- their owner, and the arrays have room for them all.
pub fdlist_add_all_refines :
    (l : FdList) (owner : FdOwner) (fds : List (ℕ × Events))
    → IsRoomy l
    → ((fdlist_add_all l owner fds).pollfds ≡ l.pollfds ++ map (entry owner) fds)
      × IsRoomy (fdlist_add_all l owner fds)
unfolding fdlist_add_all fdlist_add
fdlist_add_all_refines l owner [] v = (ground (arith, append-nil l.pollfds), v)
fdlist_add_all_refines l owner ((fd, events) ∷ rest) v =
    let more =
      fdlist_add_all_refines (fdlist_add l owner fd events) owner rest
        (fdlist_add-IsRoomy l owner fd events v) in
    (added more.0, more.1)
  where
    added :
        (fdlist_add_all (fdlist_add l owner fd events) owner rest).pollfds
          ≡ (fdlist_add l owner fd events).pollfds ++ map (entry owner) rest
        → (fdlist_add_all (fdlist_add l owner fd events) owner rest).pollfds
          ≡ l.pollfds ++ (entry owner (fd, events) ∷ map (entry owner) rest)
    added e =
        ground
          (arith, append_assoc l.pollfds (entry owner (fd, events) ∷ []) (map (entry owner) rest))
