-- ===== src/ProofChain/Chained.antt =====
-- Histories of calls of the class in crypto/ProofChain.hpp.
use neuro_mesh.Prelude.{
  ℕ, suc, ◌+◌, ◌%◌, ◌^◌, ◌≤◌, ◌<◌, ◌≡◌, refl, true, false, not, ◌||◌, Option, none, some, List, [],
  ◌∷◌, ◌++◌, Text, if_intro, Bool-cases, inl, inr, ltb, leb, length, length-append, length-drop,
  drop, get_last?, get_elem?, get_elem?-lt, length-map, text_eq_refl, arith,
}
use neuro_mesh.Prelude.Int.{ℤ}
use neuro_mesh.ProofChain.Complete.{climb-sibling_path}
use neuro_mesh.ProofChain.Merkle.{root_of, verify_path}
use neuro_mesh.ProofChain.{
  ProofChain, ProofLink, ProofEventType, max_chain, new_chain, leaves, latest_link_hash, canonical,
  link_hash_of, new_link, append, rebuild_merkle, get_root_hash, get_proof_path, verify_proof,
}

-- The calls that change a chain.
pub data Call : Type 0 where
  append_link : ℤ → ProofEventType → Text → Text → Text → Call
  root_hash : Call
  proof_path : ℕ → Call

module _ (digest : Text → Option (List ℕ)) where
  unfoldable pub perform : Call → ProofChain → ProofChain
  unfolding append get_root_hash get_proof_path
  perform (Call.append_link now type target_id payload sig_hex) c =
      append digest now type target_id payload sig_hex c
  perform Call.root_hash c = (get_root_hash digest c).0
  perform (Call.proof_path seq) c = (get_proof_path digest seq c).0

  unfoldable pub perform_all : List Call → ProofChain → ProofChain
  unfolding perform
  perform_all [] c = c
  perform_all (call ∷ calls) c = perform_all calls (perform call c)

  -- The link's hash is that of its text.
  abbrev pub IsSealed : ProofLink → Type 0
  IsSealed l = l.link_hash ≡ link_hash_of digest (canonical l)

  -- Each link names the hash of the one before it, and has the next number.
  abbrev pub Follows : ProofLink → ProofLink → Type 0
  Follows a b = (b.parent_hash ≡ a.link_hash) × (b.sequence ≡ suc a.sequence % 2 ^ 64)

  abbrev pub IsLinked : List ProofLink → Type 0
  IsLinked [] = Unit
  IsLinked (a ∷ []) = IsSealed a
  IsLinked (a ∷ b ∷ l) = IsSealed a × Follows a b × IsLinked (b ∷ l)

  abbrev pub IsNext : ℕ → Option ProofLink → Type 0
  IsNext seq none = Unit
  IsNext seq (some l) = seq ≡ suc l.sequence % 2 ^ 64

  pub record IsChained (c : ProofChain) : Type 0 where
    pub linked : IsLinked c.links
    pub next : IsNext c.seq (get_last? c.links)
    pub bounded : length c.links ≤ max_chain
    pub cached :
        c.merkle_dirty ≡ false → c.merkle_root ≡ root_of (link_hash_of digest) (leaves c.links)

  new_link-IsSealed :
      (now : ℤ) (type : ProofEventType) (target_id payload sig_hex : Text) (c : ProofChain)
      → IsSealed (new_link digest now type target_id payload sig_hex c)
  unfolding new_link canonical
  new_link-IsSealed now type target_id payload sig_hex c = refl

  snoc-IsLinked :
      (l : List ProofLink) (x : ProofLink)
      → IsLinked l
      → IsSealed x
      → x.parent_hash ≡ latest_link_hash l
      → IsNext x.sequence (get_last? l)
      → IsLinked (l ++ x ∷ [])
  unfolding latest_link_hash
  snoc-IsLinked [] x k s p n = s
  snoc-IsLinked (a ∷ []) x k s p n = (k, (p, n), s)
  snoc-IsLinked (a ∷ b ∷ l) x (s_a, follows, k) s p n =
      (s_a, follows, snoc-IsLinked (b ∷ l) x k s p n)

  drop-IsLinked : (l : List ProofLink) → IsLinked l → IsLinked (drop 1 l)
  drop-IsLinked [] k = tt
  drop-IsLinked (a ∷ []) k = tt
  drop-IsLinked (a ∷ b ∷ l) (s, f, k) = k

  snoc-last : (l : List ProofLink) (x : ProofLink) → get_last? (l ++ x ∷ []) ≡ some x
  snoc-last [] x = refl
  snoc-last (a ∷ []) x = refl
  snoc-last (a ∷ b ∷ l) x = snoc-last (b ∷ l) x

  drop-last :
      (l : List ProofLink) (x : ProofLink)
      → 1 ≤ length l
      → get_last? (drop 1 (l ++ x ∷ [])) ≡ some x
  drop-last [] x k = absurd (omega arith)
  drop-last (a ∷ l) x k = snoc-last l x

  append-IsChained :
      (now : ℤ) (type : ProofEventType) (target_id payload sig_hex : Text) (c : ProofChain)
      → IsChained c
      → IsChained (append digest now type target_id payload sig_hex c)
  unfolding append new_link
  append-IsChained now type target_id payload sig_hex c i =
      let x : ProofLink = new_link digest now type target_id payload sig_hex c in
      let grown : IsLinked (c.links ++ x ∷ []) =
        snoc-IsLinked c.links x i.linked (new_link-IsSealed now type target_id payload sig_hex c)
          refl i.next in
      let size : length (c.links ++ x ∷ []) ≡ length c.links + 1 = length-append c.links (x ∷ []) in
      elim (Bool-cases (ltb max_chain (length (c.links ++ x ∷ [])))) [
        | inl full ↦ rw full (record {
          linked = drop-IsLinked (c.links ++ x ∷ []) grown;
          next = rw (drop-last c.links x (ground arith)) refl;
          bounded = ground (arith, length-drop 1 (c.links ++ x ∷ []), i.bounded);
          cached = λ clean. absurd (ground arith);
        })
        | inr room ↦ rw room (record {
          linked = grown;
          next = rw (snoc-last c.links x) refl;
          bounded = ground arith;
          cached = λ clean. absurd (ground arith);
        })
      ]

  rebuild-IsChained : (c : ProofChain) → IsChained c → IsChained (rebuild_merkle digest c)
  unfolding rebuild_merkle
  rebuild-IsChained c i = elim (Bool-cases (not c.merkle_dirty || leb (length c.links) 0)) [
    | inl keep ↦ rw keep i
    | inr build ↦
        rw build
          (record { linked = i.linked; next = i.next; bounded = i.bounded; cached = λ clean. refl })
  ]

  root-IsChained : (c : ProofChain) → IsChained c → IsChained (get_root_hash digest c).0
  unfolding get_root_hash
  root-IsChained c i =
      if_intro (λ (result : ProofChain × Text). IsChained result.0) (leb (length c.links) 0) i
        (rebuild-IsChained c i)

  path-IsChained :
      (seq : ℕ) (c : ProofChain) → IsChained c → IsChained (get_proof_path digest seq c).0
  unfolding get_proof_path
  path-IsChained seq c i =
      if_intro (λ (result : ProofChain × List Text). IsChained result.0) (leb (length c.links) seq)
        i (rebuild-IsChained c i)

  perform-IsChained : (call : Call) (c : ProofChain) → IsChained c → IsChained (perform call c)
  unfolding perform
  perform-IsChained (Call.append_link now type target_id payload sig_hex) c i =
      append-IsChained now type target_id payload sig_hex c i
  perform-IsChained Call.root_hash c i = root-IsChained c i
  perform-IsChained (Call.proof_path seq) c i = path-IsChained seq c i

  perform_all-IsChained :
      (calls : List Call) (c : ProofChain) → IsChained c → IsChained (perform_all calls c)
  unfolding perform_all
  perform_all-IsChained [] c i = i
  perform_all-IsChained (call ∷ calls) c i =
      perform_all-IsChained calls (perform call c) (perform-IsChained call c i)

  -- After any history of calls on a new chain each link's hash is that of its text, each link names
  -- the hash of the link before it and has the next number, there are at most 4096 links, and a root
  -- that is marked as clean is the Merkle root of the links.
  pub perform_all-new_chain-IsChained :
      (calls : List Call) (node_id : Text) → IsChained (perform_all calls (new_chain node_id))
  unfolding new_chain root_of
  perform_all-new_chain-IsChained calls node_id =
      perform_all-IsChained calls (new_chain node_id)
        (record { linked = tt; next = tt; bounded = ground arith; cached = λ clean. refl })

  root_is_current :
      (c : ProofChain)
      → IsChained c
      → 1 ≤ length c.links
      → (get_root_hash digest c).1 ≡ root_of (link_hash_of digest) (leaves c.links)
  unfolding get_root_hash rebuild_merkle
  root_is_current c i k =
      let filled : leb (length c.links) 0 ≡ false = ground arith in
      elim (Bool-cases c.merkle_dirty) [
        | inl dirty ↦ rw (filled, dirty) refl
        | inr clean ↦ rw (filled, clean) (i.cached clean)
      ]

  -- On a chain of 2^k links that a history of calls can leave, the path that the chain gives for any
  -- of its links verifies against the root that it gives.
  pub get_proof_path-verifies :
      (calls : List Call) (node_id x : Text) (k r : ℕ)
      → let c = perform_all calls (new_chain node_id) in
        length c.links ≡ 2 ^ k
        → get_elem? (leaves c.links) r ≡ some x
        → verify_proof digest (get_root_hash digest c).1 x (get_proof_path digest r c).1 ≡ true
  unfolding verify_proof verify_path get_proof_path
  get_proof_path-verifies calls node_id x k r e g =
      let c : ProofChain = perform_all calls (new_chain node_id) in
      let chained : IsChained c = perform_all-new_chain-IsChained calls node_id in
      let size : length (leaves c.links) ≡ length c.links = length-map (λ l. l.link_hash) c.links in
      let lt : r < length c.links = omega (arith, get_elem?-lt (leaves c.links) r x g) in
      let inside : leb (length c.links) r ≡ false = ground arith in
      rw
        (
          inside,
          root_is_current c chained (omega arith),
          climb-sibling_path (link_hash_of digest) k r x (leaves c.links) (omega arith) g,
        )
        (text_eq_refl (root_of (link_hash_of digest) (leaves c.links)))
