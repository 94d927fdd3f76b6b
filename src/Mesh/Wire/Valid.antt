-- ===== src/Mesh/Wire/Valid.antt =====
-- Which packets `validate_message` of consensus/MeshNode.cpp takes.
use neuro_mesh.Prelude.{ℕ, ◌≤◌, ◌<◌, ◌≡◌, ◌↔◌, ◌⊎◌, true, [], ◌∷◌, Text, length, all_of, All, arith}
use neuro_mesh.Mesh.Wire.{is_allowed, validate_message}

-- A byte from 32 to 127, the last of which is the control character DEL, or the end of a line.
abbrev pub IsPlain : ℕ → Type 0
IsPlain c = ((32 ≤ c) × (c < 128)) ⊎ ((c ≡ b'\n') ⊎ (c ≡ b'\r'))

is_allowed-IsPlain : (c : ℕ) → is_allowed c ≡ true → IsPlain c
is_allowed-IsPlain c h = ground arith

IsPlain-is_allowed : (c : ℕ) → IsPlain c → is_allowed c ≡ true
IsPlain-is_allowed c h = ground arith

all_of-IsPlain : (s : Text) → (all_of is_allowed s ≡ true) ↔ All IsPlain s
all_of-IsPlain [] = (λ h. tt, λ h. ground arith)
all_of-IsPlain (c ∷ s) =
    let (to, from) = all_of-IsPlain s in
    (
      λ h. (is_allowed-IsPlain c (ground arith), to (ground arith)),
      λ h. let here = IsPlain-is_allowed c h.0 in let there = from h.1 in ground arith,
    )

-- A packet is taken exactly when it is not empty, has at most 65536 bytes, and each byte is from 32 to
-- 127, DEL included, or a line feed or a carriage return.
pub validate_message-IsPlain :
    (msg : Text)
    → (validate_message msg ≡ true) ↔ ((1 ≤ length msg) × (length msg ≤ 65536) × All IsPlain msg)
unfolding validate_message
validate_message-IsPlain [] = (λ h. absurd (ground arith), λ h. absurd (ground arith))
validate_message-IsPlain (c ∷ s) =
    let (to, from) = all_of-IsPlain (c ∷ s) in
    (
      λ h. (omega arith, ground arith, to (ground arith)),
      λ h. let all = from h.2 in ground (arith, h.1),
    )
