-- ===== src/Net/Transport/Sending.antt =====
-- What `send` of net/TransportLayer.cpp has sent when it returns.
use neuro_mesh.Prelude.{
  ℕ, zero, suc, ◌+◌, ◌≤◌, ◌<◌, ◌≡◌, refl, sym, ap, ◌∙◌, Option, none, some, [], ◌∷◌, ◌++◌, Text,
  if◌then◌else◌, ◌==◌, length, take, drop, length-drop, arith, option_elim,
}
use mathlib.Core.List.{append-nil, append_assoc}
use neuro_mesh.Net.Transport.{Act, Acts, Sockets, TransportLayer, act, send_loop, send}

-- The bytes that a descriptor took.
unfoldable pub written : ℕ → Acts → Text
written fd [] = []
written fd (Act.opened other ∷ acts) = written fd acts
written fd (Act.closed other ∷ acts) = written fd acts
written fd (Act.wrote other bytes ∷ acts) =
    let before = written fd acts in if other == fd then before ++ bytes else before

-- A write takes at least one of the bytes, and no more than there are.
pub record IsWriting (k : Sockets) : Type 0 where
  pub some_bytes :
      (acts : Acts) (fd : ℕ) (rest : Text) (n : ℕ) → k.writes acts fd rest ≡ some n → 1 ≤ n
  pub no_more :
      (acts : Acts) (fd : ℕ) (rest : Text) (n : ℕ)
      → k.writes acts fd rest ≡ some n
      → n ≤ length rest

-- The payload went out whole, or a write failed after `n` bytes of it; how many that makes with those
-- before is returned, and an error if that is none.
pub data IsSent (fd : ℕ) (rest : Text) (total : ℕ) (t : TransportLayer)
    (r : TransportLayer × Option ℕ) : Type 0 where
  whole :
      written fd r.0.acts ≡ written fd t.acts ++ rest
      → r.1 ≡ some (total + length rest)
      → IsSent fd rest total t r
  failed :
      (n : ℕ)
      → n < length rest
      → written fd r.0.acts ≡ written fd t.acts ++ take n rest
      → r.1 ≡ (if total + n == 0 then none else some (total + n))
      → IsSent fd rest total t r

take-drop : (n : ℕ) (s : Text) → take n s ++ drop n s ≡ s
take-drop zero s = refl
take-drop (suc n) [] = refl
take-drop (suc n) (c ∷ s) = ap (λ (t : Text). c ∷ t) (take-drop n s)

take-take : (n m : ℕ) (s : Text) → take n s ++ take m (drop n s) ≡ take (n + m) s
take-take zero m s = let sum : zero + m ≡ m = omega arith in rw sum refl
take-take (suc n) zero [] = let sum : suc n + zero ≡ suc (n + zero) = omega arith in rw sum refl
take-take (suc n) (suc m) [] =
    let sum : suc n + suc m ≡ suc (n + suc m) = omega arith in rw sum refl
take-take (suc n) m (c ∷ s) =
    let sum : suc n + m ≡ suc (n + m) = omega arith in
    rw sum (ap (λ (t : Text). c ∷ t) (take-take n m s))

module _ (k : Sockets) (writing : IsWriting k) (fd : ℕ) where
  done-IsSent : (total : ℕ) (t : TransportLayer) → IsSent fd [] total t (t, some total)
  done-IsSent total t = IsSent.whole (sym (append-nil (written fd t.acts))) (ap some (omega arith))

  -- One write more in front.
  more-IsSent :
      (n total : ℕ) (rest : Text) (t : TransportLayer) (r : TransportLayer × Option ℕ)
      → n ≤ length rest
      → IsSent fd (drop n rest) (total + n) (act (Act.wrote fd (take n rest)) t) r
      → IsSent fd rest total t r
  unfolding act written
  more-IsSent n total rest t r fits (IsSent.whole e f) =
      IsSent.whole
        (e
          ∙ ground (
            arith,
            append_assoc (written fd t.acts) (take n rest) (drop n rest),
            take-drop n rest,
          ))
        (f ∙ ap some (omega (arith, fits, length-drop n rest)))
  more-IsSent n total rest t r fits (IsSent.failed m few e f) =
      let sum : total + n + m ≡ total + (n + m) = omega arith in
      IsSent.failed (n + m) (omega (arith, few, fits, length-drop n rest))
        (e
          ∙ ground (
            arith,
            append_assoc (written fd t.acts) (take n rest) (take m (drop n rest)),
            take-take n m rest,
          ))
        (f ∙ rw sum refl)

  send_loop-IsSent :
      (fuel total : ℕ) (rest : Text) (t : TransportLayer)
      → length rest ≤ fuel
      → IsSent fd rest total t (send_loop k fuel fd rest total t)
  unfolding send_loop
  send_loop-IsSent zero total [] t enough = done-IsSent total t
  send_loop-IsSent zero total (c ∷ rest) t enough = absurd (omega (arith, enough))
  send_loop-IsSent (suc fuel) total [] t enough = done-IsSent total t
  send_loop-IsSent (suc fuel) total (c ∷ rest) t enough =
      option_elim (IsSent fd (c ∷ rest) total t) (k.writes t.acts fd (c ∷ rest))
        (λ e.
          IsSent.failed 0 (omega arith) (sym (append-nil (written fd t.acts)))
            (let same : total + 0 ≡ total = omega arith in rw same refl))
        (λ n e.
          let some_bytes = writing.some_bytes t.acts fd (c ∷ rest) n e in
          let fits = writing.no_more t.acts fd (c ∷ rest) n e in
          more-IsSent n total (c ∷ rest) t _ fits (
            send_loop-IsSent fuel (total + n) (drop n (c ∷ rest))
              (act (Act.wrote fd (take n (c ∷ rest))) t)
              (omega (arith, enough, some_bytes, length-drop n (c ∷ rest)))))

  -- `send` ends after at most as many writes as there are bytes, if a write takes at least one byte and
  -- no more than there are. Then either the descriptor took the whole payload, and its length is
  -- returned, or a write failed after the descriptor took the first `n` bytes: then `n` is returned, or
  -- an error if `n` is 0.
  pub send-IsSent :
      (payload : Text) (t : TransportLayer) → IsSent fd payload 0 t (send k fd payload t)
  unfolding send
  send-IsSent payload t = send_loop-IsSent (length payload) 0 payload t (omega arith)
