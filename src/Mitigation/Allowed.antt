-- ===== src/Mitigation/Allowed.antt =====
-- What `execute_response` of enforcer/MitigationEngine.cpp does to the outside.
use neuro_mesh.Prelude.{
  ℕ, ◌-◌, ◌%◌, ◌^◌, ◌≤◌, ◌<◌, ◌≡◌, ◌≢◌, refl, Bool, true, false, not, ◌&&◌, ◌||◌, List, [], ◌∷◌,
  ◌++◌, Text, codes, text_eq, text_eq_iff, is_empty, ltb, leb, ◌==◌, All, arith, Bool-cases,
  Option-cases, inl, inr, ◌⊎◌, if_intro,
}
use neuro_mesh.Prelude.Int.{ℤ, pos, negsuc}
use neuro_mesh.Mitigation.{
  World, Effect, to_pid_t, validate_evidence_schema, validate_pid, terminate_process,
  block_ip_address, respond_kill, is_safe, respond_block, respond_isolate, execute_response,
  extract_str, extract_int,
}

to_pid_t-low : (pid n : ℕ) → n < 2 ^ 31 → pid ≢ n → to_pid_t pid ≢ pos n
to_pid_t-low pid n h d e = absurd (ground arith)

to_pid_t_injective : (a b : ℕ) → a < 2 ^ 32 → b < 2 ^ 32 → to_pid_t a ≡ to_pid_t b → a ≡ b
to_pid_t_injective a b h k e = ground arith

valid_pid :
    (w : World) (pid : ℕ)
    → validate_pid w pid ≡ true
    → (2 ≤ pid) × (pid ≢ w.own_pid % 2 ^ 32) × (w.probe (to_pid_t pid) ≡ true)
unfolding validate_pid
valid_pid w pid v = (ground arith, (λ e. absurd (ground arith)), ground arith)

block_ip_address_cases :
    (w : World) (ip : Text)
    → ((block_ip_address w ip).0 ≡ []) ⊎ ((block_ip_address w ip).0 ≡ Effect.block ip ∷ [])
unfolding block_ip_address
block_ip_address_cases w ip = ground arith

module _ (w : World) (evidence_json target_id : Text) where
  -- SIGKILL answers an escalation; its `pid_t` is that of the number under "pid" in the evidence, cut to
  -- 32 bits, the probe of it succeeded, and it is neither 0 nor 1 nor the node's own. It may be
  -- negative, which stands for a process group. What is blocked is the source of the evidence and not
  -- on the safe list; what is isolated is the target.
  abbrev pub IsAllowed : Effect → Type 0
  IsAllowed (Effect.signal pid) =
      (extract_str w evidence_json (codes "event") ≡ codes "privilege_escalation")
      × ((n : ℕ) × (extract_int w evidence_json (codes "pid") ≡ pos n)
          × (pid ≡ to_pid_t (n % 2 ^ 32)))
      × (w.probe pid ≡ true)
      × (pid ≢ pos 0)
      × (pid ≢ pos 1)
      × (pid ≢ to_pid_t (w.own_pid % 2 ^ 32))
  IsAllowed (Effect.block ip) =
      (extract_str w evidence_json (codes "src_ip") ≡ ip) × (is_safe w ip ≡ false)
  IsAllowed (Effect.isolate id) = (id ≡ target_id) × (is_empty id ≡ false)

  terminate-IsAllowed :
      (n : ℕ)
      → extract_int w evidence_json (codes "pid") ≡ pos n
      → extract_str w evidence_json (codes "event") ≡ codes "privilege_escalation"
      → All IsAllowed (terminate_process w (n % 2 ^ 32)).0
  unfolding terminate_process
  terminate-IsAllowed n named e = elim (Bool-cases (validate_pid w (n % 2 ^ 32))) [
    | inr invalid ↦ rw invalid tt
    | inl valid ↦
        let pid : ℕ = n % 2 ^ 32 in
        let h : pid < 2 ^ 32 = omega arith in
        let (least, other, probed) = valid_pid w pid valid in
        rw valid (
          (
            e,
            (n, named, refl),
            probed,
            to_pid_t-low pid 0 (omega arith) (λ z. absurd (omega arith)),
            to_pid_t-low pid 1 (omega arith) (λ z. absurd (omega arith)),
            λ same. other (to_pid_t_injective pid (w.own_pid % 2 ^ 32) h (omega arith) same),
          ),
          tt,
        )
  ]

  kill-IsAllowed :
      (n : ℤ)
      → extract_int w evidence_json (codes "pid") ≡ n
      → All IsAllowed (respond_kill w (extract_str w evidence_json (codes "event")) n).0
  unfolding respond_kill
  kill-IsAllowed (negsuc n) named = tt
  kill-IsAllowed (pos n) named =
      let event : Text = extract_str w evidence_json (codes "event") in
      elim (Bool-cases (text_eq event (codes "privilege_escalation"))) [
        | inr other ↦ rw other tt
        | inl escalation ↦
            let e = (text_eq_iff event (codes "privilege_escalation")).0 escalation in
            rw escalation (
              if_intro (λ (result : List Effect × Bool). All IsAllowed result.0) (ltb 0 n)
                (terminate-IsAllowed n named e) tt)
      ]

  block_ip-IsAllowed :
      is_safe w (extract_str w evidence_json (codes "src_ip")) ≡ false
      → All IsAllowed (block_ip_address w (extract_str w evidence_json (codes "src_ip"))).0
  block_ip-IsAllowed safe =
      elim (block_ip_address_cases w (extract_str w evidence_json (codes "src_ip"))) [
        | inl nothing ↦ rw nothing tt
        | inr asked ↦ rw asked ((refl, safe), tt)
      ]

  block-IsAllowed :
      (event verdict : Text)
      → All IsAllowed
          (respond_block w event verdict (extract_str w evidence_json (codes "src_ip"))).0
  unfolding respond_block
  block-IsAllowed event verdict =
      let src_ip : Text = extract_str w evidence_json (codes "src_ip") in
      let asked : Bool =
        not (is_empty src_ip)
        && (text_eq event (codes "lateral_movement")
            || text_eq verdict (codes "THREAT")
            || text_eq verdict (codes "CRITICAL")) in
      elim (Bool-cases (is_safe w src_ip)) [
        | inl safe ↦
            rw (respond_block, safe)
              (if_intro (λ (result : List Effect × Bool). All IsAllowed result.0) asked tt tt)
        | inr open_ip ↦
            rw (respond_block, open_ip)
              (if_intro (λ (result : List Effect × Bool). All IsAllowed result.0) asked
                (block_ip-IsAllowed open_ip) tt)
      ]

  isolate-IsAllowed : All IsAllowed (respond_isolate w target_id).0
  unfolding respond_isolate
  isolate-IsAllowed = elim (Option-cases w.enforcer) [
    | inl missing ↦ rw missing tt
    | inr (enforcer, e) ↦ elim (Bool-cases (is_empty target_id)) [
      | inl empty ↦ rw (e, empty) tt
      | inr named ↦ rw (e, named) ((refl, named), tt)
    ]
  ]

  All-append :
      (xs ys : List Effect) → All IsAllowed xs → All IsAllowed ys → All IsAllowed (xs ++ ys)
  All-append [] ys a b = b
  All-append (x ∷ xs) ys a b = (a.0, All-append xs ys a.1 b)

  -- Evidence that does not validate has no effect. Otherwise SIGKILL is sent only on an escalation, and
  -- only to the pid_t of the number in the evidence, cut to 32 bits, if the probe of that succeeded and
  -- it is neither 0 nor 1 nor the node's own; a negative one, a process group, is not excluded. An
  -- address is blocked only if it is the source in the evidence and not on the safe list; a node is
  -- isolated only if it is the target.
  pub execute_response-IsAllowed :
      (validate_evidence_schema w evidence_json ≡ false
        → execute_response w evidence_json target_id ≡ ([], false))
      × All IsAllowed (execute_response w evidence_json target_id).0
  unfolding execute_response
  execute_response-IsAllowed =
      let event : Text = extract_str w evidence_json (codes "event") in
      let verdict : Text = extract_str w evidence_json (codes "verdict") in
      let killed = kill-IsAllowed (extract_int w evidence_json (codes "pid")) refl in
      let blocked = block-IsAllowed event verdict in
      let all = All-append _ _ (All-append _ _ killed blocked) isolate-IsAllowed in
      let nothing : Bool = is_empty (w.sha256_hex evidence_json) in
      let invalid_schema : Bool = not (validate_evidence_schema w evidence_json) in
      (
        λ invalid. rw invalid refl,
        if_intro (λ (result : List Effect × Bool). All IsAllowed result.0) invalid_schema tt
            (if_intro (λ (result : List Effect × Bool). All IsAllowed result.0) nothing tt all),
      )

-- The number 2^32 - 1 - n, with n below 2^31, becomes the `pid_t` -1 - n: if the probe of it succeeds
-- and the node's own number is below 2^31, SIGKILL is sent to it.
pub terminate_process-group :
    (w : World) (n : ℕ)
    → n < 2 ^ 31
    → w.own_pid < 2 ^ 31
    → w.probe (negsuc n) ≡ true
    → (terminate_process w (2 ^ 32 - 1 - n)).0 ≡ Effect.signal (negsuc n) ∷ []
unfolding terminate_process validate_pid
terminate_process-group w n h o p =
    let group : to_pid_t (2 ^ 32 - 1 - n) ≡ negsuc n = ground arith in
    let large : leb (2 ^ 32 - 1 - n) 1 ≡ false = ground arith in
    let other : ((2 ^ 32 - 1 - n) == w.own_pid % 2 ^ 32) ≡ false = ground arith in
    rw (large, other, group, p) refl
