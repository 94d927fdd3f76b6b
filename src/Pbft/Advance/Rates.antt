-- ===== src/Pbft/Advance/Rates.antt =====
-- The sliding window of `check_rate_limit` in consensus/PBFT.hpp, against the history of what it
-- let through.
use neuro_mesh.Prelude.{
  ℕ, ◌≤◌, ◌≡◌, refl, ◌∙◌, ap, sym, List, [], ◌∷◌, ◌++◌, arith, if◌then◌else◌, leb, length,
  length-append, keep_if-append, length-keep_if-le, Bool-cases, inl, inr,
}
use neuro_mesh.Pbft.Advance.{recent, slide_window}

-- The times of all messages let through so far, and the readings that the limiter holds.
pub record RateLog : Type 0 where
  pub accepted : List ℕ
  pub timestamps : List ℕ

-- A message of the sender at `now`.
unfoldable pub arrive : ℕ → ℕ → ℕ → RateLog → RateLog
arrive window limit now log =
    let (timestamps, ok) = slide_window now window limit log.timestamps in
    record {
      accepted = (if ok then log.accepted ++ now ∷ [] else log.accepted);
      timestamps = timestamps;
    }

unfoldable pub arrive_all : ℕ → ℕ → List ℕ → RateLog → RateLog
arrive_all window limit [] log = log
arrive_all window limit (now ∷ times) log =
    arrive_all window limit times (arrive window limit now log)

-- The clock does not go back.
abbrev pub Ascending : ℕ → List ℕ → Type 0
Ascending since [] = Unit
Ascending since (now ∷ times) = (since ≤ now) × Ascending now times

abbrev pub last_of : ℕ → List ℕ → ℕ
last_of since [] = since
last_of since (now ∷ times) = last_of now times

recent-recent :
    (now t window : ℕ) (xs : List ℕ)
    → t ≤ now
    → recent now window (recent t window xs) ≡ recent now window xs
unfolding recent
recent-recent now t window [] h = refl
recent-recent now t window (x ∷ xs) h = ground (arith, recent-recent now t window xs h)

recent-append :
    (now window : ℕ) (xs ys : List ℕ)
    → recent now window (xs ++ ys) ≡ recent now window xs ++ recent now window ys
unfolding recent
recent-append now window xs ys = keep_if-append _ xs ys

length-recent-le : (now window : ℕ) (xs : List ℕ) → length (recent now window xs) ≤ length xs
unfolding recent
length-recent-le now window xs = length-keep_if-le _ xs

module _ (window limit : ℕ) where
  -- What the limiter holds stands for the whole history, from `last` on.
  record Tracks (last : ℕ) (log : RateLog) : Type 0 where
    same :
        (now : ℕ) → last ≤ now → recent now window log.accepted ≡ recent now window log.timestamps
    bounded : length log.timestamps ≤ limit

  arrive-Tracks :
      (last now : ℕ) (log : RateLog)
      → last ≤ now
      → Tracks last log
      → Tracks now (arrive window limit now log)
  unfolding arrive slide_window
  arrive-Tracks last now log h t =
      let kept : List ℕ = recent now window log.timestamps in
      let fewer = length-recent-le now window log.timestamps in
      elim (Bool-cases (leb limit (length kept))) [
        | inl full ↦ rw full (record {
          same = λ later g.
              t.same later (omega arith) ∙ sym (recent-recent later now window log.timestamps g);
          bounded = omega (arith, t.bounded);
        })
        | inr room ↦ rw room (record {
          same = λ later g.
              let old =
                t.same later (omega arith)
                ∙ sym (recent-recent later now window log.timestamps g) in
              recent-append later window log.accepted (now ∷ [])
              ∙ ap (λ xs. xs ++ recent later window (now ∷ [])) old
              ∙ sym (recent-append later window kept (now ∷ []));
          bounded = ground (arith, length-append kept (now ∷ []));
        })
      ]

  arrive_all-Tracks :
      (times : List ℕ) (last : ℕ) (log : RateLog)
      → Ascending last times
      → Tracks last log
      → Tracks (last_of last times) (arrive_all window limit times log)
  unfolding arrive_all
  arrive_all-Tracks [] last log a t = t
  arrive_all-Tracks (now ∷ times) last log a t =
      arrive_all-Tracks times now (arrive window limit now log) a.1
        (arrive-Tracks last now log a.0 t)

  -- However many messages a sender delivers and whenever, on a clock that does not go back: at no
  -- moment after them do more than the limit of those let through fall into the window that ends
  -- there.
  pub arrive_all-limit :
      (times : List ℕ) (now : ℕ)
      → Ascending 0 times
      → last_of 0 times ≤ now
      → length (
          recent now window
            (arrive_all window limit times (record { accepted = []; timestamps = [] })).accepted)
        ≤ limit
  arrive_all-limit times now a h =
      let log : RateLog = record { accepted = []; timestamps = [] } in
      let t =
        arrive_all-Tracks times 0 log a (record { same = λ n g. refl; bounded = omega arith }) in
      rw (t.same now h) (
        omega (
          arith,
          t.bounded,
          length-recent-le now window (arrive_all window limit times log).timestamps,
        ))
