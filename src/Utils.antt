-- ===== src/Utils.antt =====
-- The list of descriptors to poll: `struct fdlist` and its operations of src/utils.c. `pollfds` holds
-- the `count` entries, with their owners; `revents` comes from the poll.
pub mod Growth
use usbmuxd_win_mce.Base.{ℕ, ◌*◌, List, [], ◌∷◌, ◌++◌, length, ◌==◌, if◌then◌else◌}
use usbmuxd_win_mce.State.{Events}

pub data FdOwner : Type 0 where
  fd_listen fd_client fd_usb : FdOwner

pub record PollFd : Type 0 where
  pub owner : FdOwner
  pub fd : ℕ
  pub events : Events

pub record FdList : Type 0 where
  pub capacity : ℕ
  pub pollfds : List PollFd

abbrev pub fdlist_create : FdList
fdlist_create = record { capacity = 4; pollfds = [] }

-- A full list doubles its capacity first.
unfoldable pub fdlist_add : FdList → FdOwner → ℕ → Events → FdList
fdlist_add l owner fd events = record {
  capacity = if length l.pollfds == l.capacity then l.capacity * 2 else l.capacity;
  pollfds = l.pollfds ++ (record { owner = owner; fd = fd; events = events } ∷ []);
}

abbrev pub fdlist_free : FdList → FdList
fdlist_free l = record { capacity = 0; pollfds = [] }

abbrev pub fdlist_reset : FdList → FdList
fdlist_reset l = record l { pollfds = [] }

-- The entries that one owner adds, in order.
unfoldable pub fdlist_add_all : FdList → FdOwner → List (ℕ × Events) → FdList
unfolding fdlist_add
fdlist_add_all l owner [] = l
fdlist_add_all l owner ((fd, events) ∷ rest) =
    fdlist_add_all (fdlist_add l owner fd events) owner rest
