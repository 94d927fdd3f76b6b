-- ===== src/Net/Transport.antt =====
-- Class `TransportLayer` of net/TransportLayer.cpp: its table of TLS connections, what it asks of the
-- system and of OpenSSL, and what it does to descriptors.
pub mod Descriptors
pub mod Sending
use neuro_mesh.Prelude.{
  ℕ, zero, suc, ◌+◌, ◌-◌, ◌/◌, Bool, true, false, not, ◌&&◌, ◌||◌, Option, none, some, List, [],
  ◌∷◌, ◌++◌, Text, is_empty, if◌then◌else◌, ltb, leb, ◌==◌, length, take, drop, nat_key,
}
use neuro_mesh.Prelude.Dict.{contains, add, remove}

-- A descriptor that the system gave, one that was closed, and bytes that a descriptor took.
pub data Act : Type 0 where
  opened : ℕ → Act
  closed : ℕ → Act
  wrote : ℕ → Text → Act

abbrev pub Acts : Type 0
Acts = List Act

-- What the calls answer after some acts: the steady clock in nanoseconds, the descriptor that `accept4`
-- or `socket` gives, the success of `::connect`, of the making of an SSL object, of a handshake (on the
-- server the whole loop of `SSL_do_handshake` and `poll`), of the check of the certificate; how many of
-- some bytes a write takes, `none` for an error; what a read gives.
pub record Sockets : Type 0 where
  pub now : Acts → ℕ
  pub accept4 : Acts → Option ℕ
  pub socket : Acts → Option ℕ
  pub connects : Acts → ℕ → Text → ℕ → Bool
  pub makes_ssl : Acts → Bool
  pub handshakes : Acts → ℕ → Bool
  pub verifies : Acts → ℕ → Bool
  pub writes : Acts → ℕ → Text → Option ℕ
  pub reads : Acts → ℕ → ℕ → Option Text

-- The members; the SSL objects are those of the descriptors in the table.
pub record TransportLayer : Type 0 where
  pub server_fd : Option ℕ
  pub active_ssl : List ℕ
  pub rate_ts : ℕ
  pub accept_rate : ℕ
  pub acts : Acts

unfoldable pub act : Act → TransportLayer → TransportLayer
act a t = record t { acts = a ∷ t.acts }

-- `close`, for a descriptor that is not negative.
unfoldable pub close : ℕ → TransportLayer → TransportLayer
unfolding act remove
close fd t = act (Act.closed fd) (record t { active_ssl = remove fd t.active_ssl })

-- The connections are closed one by one, then the server's socket.
unfoldable pub close_all : List ℕ → TransportLayer → TransportLayer
unfolding close
close_all [] t = t
close_all (fd ∷ fds) t = close_all fds (close fd t)

unfoldable pub shutdown : TransportLayer → TransportLayer
unfolding close_all
shutdown t = record (close_all t.active_ssl t) { server_fd = none }

module _ (k : Sockets) where
  -- A new window of a second for the count of accepted connections.
  unfoldable pub roll_window : TransportLayer → TransportLayer
  roll_window t =
      let now = k.now t.acts in
      if leb 1 ((now - t.rate_ts) / 1000000000)
      then record t { accept_rate = 0; rate_ts = now }
      else t

  -- A descriptor whose handshake is done comes into the table, any other one is closed.
  unfoldable pub finish : Bool → ℕ → TransportLayer → TransportLayer × Option ℕ
  unfolding close add
  finish ok fd t =
      if ok then (record t { active_ssl = add fd t.active_ssl }, some fd) else (close fd t, none)

  unfoldable pub accept_client : TransportLayer → TransportLayer × Option ℕ
  unfolding act finish
  accept_client t = elim (k.accept4 t.acts) [
    | none ↦ (t, none)
    | some fd ↦
        let taken : TransportLayer =
          act (Act.opened fd) (record t { accept_rate = t.accept_rate + 1 }) in
        finish (k.makes_ssl taken.acts && k.handshakes taken.acts fd) fd taken
  ]

  unfoldable pub accept : TransportLayer → TransportLayer × Option ℕ
  unfolding roll_window accept_client
  accept t = elim t.server_fd [
    | none ↦ (t, none)
    | some _ ↦
        let rolled = roll_window t in
        if leb 50 rolled.accept_rate || leb 256 (length rolled.active_ssl)
        then (rolled, none)
        else accept_client rolled
  ]

  unfoldable pub connect : Text → ℕ → TransportLayer → TransportLayer × Option ℕ
  unfolding act finish
  connect host port t = elim (k.socket t.acts) [
    | none ↦ (t, none)
    | some fd ↦
        let made : TransportLayer = act (Act.opened fd) t in
        finish
          (k.connects made.acts fd host port
            && k.makes_ssl made.acts
            && k.handshakes made.acts fd
            && k.verifies made.acts fd)
          fd made
  ]

  -- The loop of `send`; `none` is -1. The loop over `::send` and the one over `SSL_write` are alike, so
  -- the descriptor says which one is meant.
  unfoldable pub send_loop : ℕ → ℕ → Text → ℕ → TransportLayer → TransportLayer × Option ℕ
  unfolding act
  send_loop zero fd rest total t = (t, some total)
  send_loop (suc fuel) fd rest total t =
      if is_empty rest then (t, some total) else elim (k.writes t.acts fd rest) [
        | none ↦ (t, if total == 0 then none else some total)
        | some n ↦ send_loop fuel fd (drop n rest) (total + n) (act (Act.wrote fd (take n rest)) t)
      ]

  unfoldable pub send : ℕ → Text → TransportLayer → TransportLayer × Option ℕ
  unfolding send_loop
  send fd buf t = send_loop (length buf) fd buf 0 t

  unfoldable pub recv : ℕ → ℕ → TransportLayer → Option Text
  recv fd len t = k.reads t.acts fd len
