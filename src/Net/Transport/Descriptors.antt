-- ===== src/Net/Transport/Descriptors.antt =====
-- The descriptors that class `TransportLayer` of net/TransportLayer.cpp holds open.
use neuro_mesh.Prelude.{
  ℕ, zero, suc, ◌+◌, ◌-◌, ◌/◌, is_empty, take, drop, ◌≡◌, Bool, true, false, not, ◌&&◌, ◌||◌,
  Option, List, [], ◌∷◌, Text, leb, ◌==◌, length, nat_key, arith, if_intro, option_elim,
}
use neuro_mesh.Prelude.Dict.{contains, contains-add, contains-remove}
use neuro_mesh.Net.Transport.{
  Act, Acts, Sockets, TransportLayer, act, close, close_all, shutdown, roll_window, finish,
  accept_client, accept, connect, send_loop, send,
}

-- Whether a descriptor is open after some acts.
unfoldable pub is_open : ℕ → Acts → Bool
is_open fd [] = false
is_open fd (Act.opened other ∷ acts) = let before = is_open fd acts in other == fd || before
is_open fd (Act.closed other ∷ acts) = let before = is_open fd acts in not (other == fd) && before
is_open fd (Act.wrote other bytes ∷ acts) = is_open fd acts

-- The table has the descriptors that are open.
abbrev pub IsHeld : TransportLayer → Type 0
IsHeld t = (fd : ℕ) → contains fd t.active_ssl ≡ is_open fd t.acts

pub data Call : Type 0 where
  accepting : Call
  connecting : Text → ℕ → Call
  sending : ℕ → Text → Call
  closing : ℕ → Call
  stopping : Call

unfoldable pub perform : Sockets → Call → TransportLayer → TransportLayer
unfolding accept connect send close shutdown
perform k Call.accepting t = (accept k t).0
perform k (Call.connecting host port) t = (connect k host port t).0
perform k (Call.sending fd buf) t = (send k fd buf t).0
perform k (Call.closing fd) t = close fd t
perform k Call.stopping t = shutdown t

unfoldable pub perform_all : Sockets → List Call → TransportLayer → TransportLayer
unfolding perform
perform_all k [] t = t
perform_all k (call ∷ calls) t = perform_all k calls (perform k call t)

close-IsHeld : (fd : ℕ) (t : TransportLayer) → IsHeld t → IsHeld (close fd t)
unfolding close act is_open
close-IsHeld fd t h x = rw contains-remove (ground (arith, h x))

close_all-IsHeld : (fds : List ℕ) (t : TransportLayer) → IsHeld t → IsHeld (close_all fds t)
unfolding close_all
close_all-IsHeld [] t h = h
close_all-IsHeld (fd ∷ fds) t h = close_all-IsHeld fds (close fd t) (close-IsHeld fd t h)

-- The descriptor is open, and in the table or not; the others are as the table has them.
finish-IsHeld :
    (k : Sockets) (ok : Bool) (fd : ℕ) (t : TransportLayer)
    → ((x : ℕ) → (x == fd || contains x t.active_ssl) ≡ is_open x t.acts)
    → IsHeld (finish k ok fd t).0
unfolding finish close act is_open
finish-IsHeld k true fd t h x = rw contains-add (ground (arith, h x))
finish-IsHeld k false fd t h x = rw contains-remove (ground (arith, h x))

module _ (k : Sockets) where
  roll_window-IsHeld : (t : TransportLayer) → IsHeld t → IsHeld (roll_window k t)
  unfolding roll_window
  roll_window-IsHeld t h = if_intro IsHeld (leb 1 ((k.now t.acts - t.rate_ts) / 1000000000)) h h

  send_loop-IsHeld :
      (fuel fd : ℕ) (rest : Text) (total : ℕ) (t : TransportLayer)
      → IsHeld t
      → IsHeld (send_loop k fuel fd rest total t).0
  unfolding send_loop act is_open
  send_loop-IsHeld zero fd rest total t h = h
  send_loop-IsHeld (suc fuel) fd rest total t h =
      let Held : TransportLayer × Option ℕ → Type 0 = λ r. IsHeld r.0 in
      if_intro Held (is_empty rest) h (
        option_elim Held (k.writes t.acts fd rest) (λ e. h)
          (λ n e.
            send_loop-IsHeld fuel fd (drop n rest) (total + n) (act (Act.wrote fd (take n rest)) t)
              h))

  accept_client-IsHeld : (t : TransportLayer) → IsHeld t → IsHeld (accept_client k t).0
  unfolding accept_client act is_open
  accept_client-IsHeld t h =
      option_elim (λ (r : TransportLayer × Option ℕ). IsHeld r.0) (k.accept4 t.acts) (λ e. h)
        (λ fd e.
          finish-IsHeld k _ fd (act (Act.opened fd) (record t { accept_rate = t.accept_rate + 1 }))
            (λ x. ground (arith, h x)))

  perform-IsHeld : (call : Call) (t : TransportLayer) → IsHeld t → IsHeld (perform k call t)
  unfolding perform accept connect send shutdown act is_open
  perform-IsHeld Call.accepting t h =
      let Held : TransportLayer × Option ℕ → Type 0 = λ r. IsHeld r.0 in
      let rolled = roll_window k t in
      option_elim Held t.server_fd (λ e. h)
        (λ fd e.
          if_intro Held (leb 50 rolled.accept_rate || leb 256 (length rolled.active_ssl))
            (roll_window-IsHeld t h) (accept_client-IsHeld rolled (roll_window-IsHeld t h)))
  perform-IsHeld (Call.connecting host port) t h =
      option_elim (λ (r : TransportLayer × Option ℕ). IsHeld r.0) (k.socket t.acts) (λ e. h)
        (λ fd e. finish-IsHeld k _ fd (act (Act.opened fd) t) (λ x. ground (arith, h x)))
  perform-IsHeld (Call.sending fd buf) t h = send_loop-IsHeld (length buf) fd buf 0 t h
  perform-IsHeld (Call.closing fd) t h = close-IsHeld fd t h
  perform-IsHeld Call.stopping t h = close_all-IsHeld t.active_ssl t h

  -- After any history of calls, on a transport whose table has the open descriptors, the table has
  -- just the descriptors that are open: no connection is left open outside of the table, and none in the
  -- table is closed, whether a handshake fails, a certificate does not verify or a limit is met.
  pub perform_all-IsHeld :
      (calls : List Call) (t : TransportLayer) → IsHeld t → IsHeld (perform_all k calls t)
  unfolding perform_all
  perform_all-IsHeld [] t h = h
  perform_all-IsHeld (call ∷ calls) t h =
      perform_all-IsHeld calls (perform k call t) (perform-IsHeld call t h)
