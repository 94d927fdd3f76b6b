-- ===== src/Pbft/Limits.antt =====
-- The rate limit of consensus/PBFT.hpp under the settings from the environment.
use neuro_mesh.Prelude.{ℕ, ◌*◌, ◌^◌, ◌<◌, ◌≡◌, false, some, List, arith}
use neuro_mesh.Prelude.Decimal.{to_text}
use neuro_mesh.Prelude.Int.{pos}
use neuro_mesh.Pbft.Advance.{slide_window}
use neuro_mesh.Pbft.Settings.{int_setting, to_int, as_size, int_setting-to_int}

-- A multiple of 2^32 passes the check for a positive value, and is cut down to 0; under this limit
-- the sliding window lets no message through, whenever it comes.
pub int_setting-cut :
    (default k window now : ℕ) (timestamps : List ℕ)
    → 0 < k
    → k < 2 ^ 31
    → let limit = int_setting default (some (to_text (k * 2 ^ 32))) in
      (limit ≡ pos 0) × ((slide_window now window (as_size limit) timestamps).1 ≡ false)
unfolding to_int slide_window
int_setting-cut default k window now timestamps h b =
    let cut : int_setting default (some (to_text (k * 2 ^ 32))) ≡ pos 0 =
      rw (int_setting-to_int default (k * 2 ^ 32) (omega arith) (omega arith)) (ground arith) in
    (cut, rw cut (ground arith))
