-- ===== src/Main/Socket.antt =====
-- The listening socket: create_socket of src/main.c.
pub mod Listening
use usbmuxd_win_mce.Base.{
  ℕ, zero, suc, ◌+◌, Bool, true, false, not, ◌&&◌, ◌||◌, Option, none, some, List, [], ◌∷◌, ◌++◌, ℤ,
  pos, neg, is_neg, pos_part, ◌==◌, if◌then◌else◌, codes, bytes_eq,
}
use usbmuxd_win_mce.Conf.Records.{enoent}
use usbmuxd_win_mce.Main.Host.{Host, SocketHost}

-- The calls that change a descriptor or the file system, and that succeeded.
pub data SocketCall : Type 0 where
  opens closes binds listens_on : ℕ → SocketCall
  sets_nonblocking : ℕ → SocketCall
  unlinks chmods : List ℕ → SocketCall

-- strrchr(text, ':'): what is before and behind the last colon, if there is one.
unfoldable pub last_colon : List ℕ → Option (List ℕ × List ℕ)
last_colon [] = none
last_colon (c ∷ cs) = elim (last_colon cs) [
  | some (before, behind) ↦ some (c ∷ before, behind)
  | none ↦ if c == b':' then some ([], cs) else none
]

-- SOCKET_PATH
abbrev pub socket_path : List ℕ
socket_path = codes "/var/run/usbmuxd"

abbrev pub address_of : Option (List ℕ) → List ℕ
address_of none = socket_path
address_of (some listen_addr) = listen_addr

module _ (host : SocketHost) where
  -- The loop over the addresses, from a place with so many left: the first that can be bound, and the
  -- calls.
  unfoldable pub bind_first : ℕ → ℕ → Option ℕ × List SocketCall
  bind_first i zero = (none, [])
  bind_first i (suc left) =
      let rest = bind_first (suc i) left in
      let fd = pos_part (host.socket i) in
      if is_neg (host.socket i)
      then rest
      else if not (host.set_reuseaddr i)
      then (rest.0, opens fd ∷ closes fd ∷ rest.1)
      else if not (host.bind i)
      then (rest.0, opens fd ∷ closes fd ∷ rest.1)
      else (some fd, opens fd ∷ binds fd ∷ [])

  unfoldable pub tcp_socket : List ℕ → List ℕ → Option ℕ × List SocketCall
  unfolding bind_first
  tcp_socket hostname port = elim (host.getaddrinfo hostname port) [
    | none ↦ (none, [])
    | some addresses ↦ bind_first 0 addresses
  ]

  -- A file that is not a socket is in the way of a path other than the usual one.
  unfoldable pub is_blocked : List ℕ → Bool
  is_blocked path = elim (host.stat_is_socket path) [
    | none ↦ false
    | some is_socket ↦ not (bytes_eq path socket_path) && not is_socket
  ]

  unfoldable pub unlink_fails : List ℕ → Bool
  unlink_fails path = elim (host.unlink_error path) [
    | none ↦ false
    | some errno ↦ not (errno == enoent)
  ]

  -- A path of 108 bytes or more is cut off for bind, but not for unlink and chmod.
  unfoldable pub local_socket : List ℕ → Option ℕ × List SocketCall
  unfolding is_blocked unlink_fails
  local_socket path =
      let fd = pos_part host.local_socket in
      if is_blocked path || unlink_fails path
      then (none, [])
      else if is_neg host.local_socket
      then (none, unlinks path ∷ [])
      else if not (host.local_bind path)
      then (none, unlinks path ∷ opens fd ∷ [])
      else (some fd, unlinks path ∷ opens fd ∷ binds fd ∷ chmods path ∷ [])

  -- A socket address with a colon is a host and a port, any other a path.
  unfoldable pub bound_socket : List ℕ → Option ℕ × List SocketCall
  unfolding last_colon tcp_socket local_socket
  bound_socket socket_addr = elim (last_colon socket_addr) [
    | none ↦ local_socket socket_addr
    | some (hostname, port) ↦ tcp_socket hostname port
  ]

  -- The flags, whose failure is only logged, and listen.
  unfoldable pub start_listening : Option ℕ → List SocketCall → ℤ × List SocketCall
  start_listening none calls = (neg 1, calls)
  start_listening (some fd) calls =
      let calls' =
        if not (is_neg host.get_flags) && host.set_nonblocking
        then calls ++ (sets_nonblocking fd ∷ [])
        else calls in
      if host.listen fd then (pos fd, calls' ++ (listens_on fd ∷ [])) else (neg 1, calls')

  unfoldable pub create_socket : Option (List ℕ) → ℤ × List SocketCall
  unfolding bound_socket start_listening
  create_socket listen_addr =
      let (made, calls) = bound_socket (address_of listen_addr) in start_listening made calls
