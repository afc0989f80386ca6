-- ===== src/Network.antt =====
-- src/network/tcp_socket_handler.cpp, without TLS: the buffers of a socket. What the kernel answers
-- is an argument, and the methods that a class overrides are parameters.
pub mod Delivery
pub mod Progress
use biboumi.Base.{
  ℕ, ◌+◌, ◌-◌, Bool, true, false, not, ◌&&◌, ◌||◌, Option, none, some, List, [], ◌∷◌, ◌++◌, ◌⊎◌,
  inl, inr, leb, if◌then◌else◌, Bytes, is_empty, length, take, drop,
}

-- `watched`: the poller watches the socket for send events. `managed`: it watches the socket at all.
-- `written` has the bytes that the kernel took.
pub record Socket : Type 0 where
  pub in_buf : Bytes
  pub out_buf : List Bytes
  pub connected : Bool
  pub connecting : Bool
  pub opened : Bool
  pub managed : Bool
  pub watched : Bool
  pub written : Bytes

abbrev pub uio_fastiov : ℕ
uio_fastiov = 8

unfoldable pub flatten : List Bytes → Bytes
flatten [] = []
flatten (s ∷ ss) = s ++ flatten ss

abbrev pub has_none : List Bytes → Bool
has_none [] = true
has_none (s ∷ ss) = false

-- `remove_socket_handler` of the poller, which forgets what it watches.
abbrev unmanage : Socket → Socket
unmanage s = record s { managed = false; watched = false }

unfoldable pub close : Socket → Socket
close s =
    let s' = if s.connected || s.connecting then unmanage s else s in
    record s' { opened = false; connected = false; connecting = false; in_buf = []; out_buf = [] }

-- The loop that removes what was sent, and shortens what was sent in part.
unfoldable pub remove_sent : ℕ → List Bytes → List Bytes
remove_sent size [] = []
remove_sent size (s ∷ ss) =
    let rest = remove_sent (size - length s) ss in
    if leb (length s) size then rest else drop size s ∷ ss

-- What a call of `sendmsg` is given.
unfoldable pub offered : List Bytes → List Bytes
offered out_buf = take uio_fastiov out_buf

unfoldable pub stop_if_empty : Socket → Socket
stop_if_empty s = if has_none s.out_buf then record s { watched = false } else s

unfoldable pub raw_send : Bytes → Socket → Socket
raw_send text s =
    let s' = record s { out_buf = s.out_buf ++ text ∷ [] } in
    if is_empty text then s else if s.connected then record s' { watched = true } else s'

unfoldable pub send_pending_data : Socket → Socket
send_pending_data s =
    if s.connected && not (has_none s.out_buf) then record s { watched = true } else s

unfoldable pub consume_in_buffer : ℕ → Socket → Socket
consume_in_buffer size s = record s { in_buf = drop size s.in_buf }

-- What `recv` returns: the end of the stream, an error, or some bytes.
pub data Received : Type 0 where
  end_of_stream : Received
  receive_error : Bytes → Received
  received : Bytes → Received

module _ (on_connection_close on_connection_failed : Bytes → Socket → Socket)
    (parse_in_buffer : ℕ → Socket → Socket) where
  -- The result of `sendmsg`: an error, or the number of bytes that were sent.
  unfoldable pub on_send : Bytes ⊎ ℕ → Socket → Socket
  unfolding offered remove_sent stop_if_empty close
  on_send (inl error) s = close (on_connection_close error s)
  on_send (inr size) s = stop_if_empty (record s {
    out_buf = remove_sent size s.out_buf;
    written = s.written ++ take size (flatten (offered s.out_buf));
  })

  unfoldable pub do_recv : Received → Socket → Socket
  unfolding close
  do_recv end_of_stream s = close (on_connection_close [] s)
  do_recv (receive_error error) s =
      if s.connecting
      then on_connection_failed error (close s)
      else on_connection_close error (close s)
  do_recv (received bytes) s = s

  -- The base class gives no buffer of its own, so what was read is added to `in_buf`.
  unfoldable pub plain_recv : Received → Socket → Socket
  unfolding do_recv
  plain_recv (received bytes) s =
      parse_in_buffer (length bytes) (record s { in_buf = s.in_buf ++ bytes })
  plain_recv r s = do_recv r s
