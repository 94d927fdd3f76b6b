-- ===== src/Enforcer/Isolation/Refinement.antt =====
-- Histories of calls of `PolicyEnforcer` (enforcer/PolicyEnforcer.cpp) against a specification that
-- knows only the isolated nodes and the safe list.
use neuro_mesh.Prelude.{
  ℕ, ◌≡◌, refl, Bool, true, false, List, [], ◌∷◌, Text, text_key, text_eq, text_eq_iff, is_empty,
  not, ◌||◌, ◌==◌, arith, if_intro, if_elim, Bool-cases, inl, inr,
}
use neuro_mesh.Prelude.Dict.{contains, add, remove, contains-add, contains-remove}
use neuro_mesh.Enforcer.Types.{Trace, Host, PolicyEnforcer}
use neuro_mesh.Enforcer.Addresses.{
  normalized, is_safe, add_safe_node, is_valid_ip, register_peer_ip, register_peer_port,
  resolve_target, resolve_port, set_node_id,
}
use neuro_mesh.Enforcer.Isolation.{
  record_isolation, is_local, isolate_address, on_cooldown, isolate_target, release_target,
}
use neuro_mesh.Enforcer.Processes.{suspend_process, reset_enforcement}

pub data Call : Type 0 where
  isolating : Text → Call
  releasing : Text → Call
  listing : Text → Call
  naming : Text → Call
  mapping : Text → Text → Call
  porting : Text → ℕ → Call
  suspending : ℕ → Call
  resetting : Call

unfoldable pub perform : Host → Call → PolicyEnforcer → Trace → Trace × PolicyEnforcer
unfolding isolate_target release_target add_safe_node register_peer_ip register_peer_port
    set_node_id suspend_process reset_enforcement
perform h (isolating target) p trace =
    let result = isolate_target h p target trace in (result.0, result.1)
perform h (releasing target) p trace = release_target h p target trace
perform h (listing node_id) p trace = (trace, add_safe_node node_id p)
perform h (naming node_id) p trace = (trace, set_node_id node_id p)
perform h (mapping node_id ip) p trace = (trace, register_peer_ip h node_id ip p)
perform h (porting node_id port) p trace = (trace, register_peer_port node_id port p)
perform h (suspending pid) p trace = suspend_process h pid p trace
perform h resetting p trace = reset_enforcement h p trace

unfoldable pub run : Host → List Call → PolicyEnforcer → Trace → Trace × PolicyEnforcer
unfolding perform
run h [] p trace = (trace, p)
run h (call ∷ calls) p trace =
    let (after, changed) = perform h call p trace in run h calls changed after

-- The specification: two sets of nodes, and the steps that a call may be.
pub record Isolation : Type 0 where
  pub isolated : List Text
  pub safe : List Text

pub data Step : Isolation → Call → Isolation → Type 0 where
  isolate :
      (s t : Isolation) (target : Text)
      → contains (normalized target) s.safe ≡ false
      → t ≡ record s { isolated = add target s.isolated }
      → Step s (isolating target) t
  release :
      (s t : Isolation) (target : Text)
      → t ≡ record s { isolated = remove target s.isolated }
      → Step s (releasing target) t
  list :
      (s t : Isolation) (node_id : Text)
      → t ≡ record s { safe = add (normalized node_id) s.safe }
      → Step s (listing node_id) t
  idle : (s t : Isolation) (call : Call) → t ≡ s → Step s call t

pub data Steps : Isolation → List Call → Isolation → Type 0 where
  done : (s : Isolation) → Steps s [] s
  next :
      (s t u : Isolation) (call : Call) (calls : List Call)
      → Step s call t
      → Steps t calls u
      → Steps s (call ∷ calls) u

abbrev pub view : PolicyEnforcer → Isolation
view p = record { isolated = p.isolated_nodes; safe = p.safe_list }

module _ (h : Host) (p : PolicyEnforcer) where
  abbrev Isolates : Text → Trace × PolicyEnforcer × Bool → Type 0
  Isolates target result = Step (view p) (isolating target) (view result.1)

  record-Isolates :
      (target : Text) (made : Trace × Bool)
      → is_safe p target ≡ false
      → Isolates target (record_isolation h p target made)
  unfolding record_isolation is_safe
  record-Isolates target (trace, true) open_node = Step.isolate _ _ target open_node refl
  record-Isolates target (trace, false) open_node = Step.idle _ _ _ refl

  address-Isolates :
      (target resolved_ip : Text) (trace : Trace)
      → is_safe p target ≡ false
      → Isolates target (isolate_address h p target resolved_ip trace)
  unfolding isolate_address
  address-Isolates target resolved_ip trace open_node =
      if_intro (Isolates target) (is_local h resolved_ip)
        (if_intro (Isolates target) (resolve_port p target == 0) (Step.idle _ _ _ refl)
          (record-Isolates target _ open_node))
        (record-Isolates target _ open_node)

  isolate_target-Isolates :
      (target : Text) (trace : Trace) → Isolates target (isolate_target h p target trace)
  unfolding isolate_target
  isolate_target-Isolates target trace =
      let resolved_ip : Text = resolve_target h p target in
      if_intro (Isolates target) (on_cooldown h p trace) (Step.idle _ _ _ refl) (
        if_intro (Isolates target) (contains target p.isolated_nodes) (Step.idle _ _ _ refl) (
          if_elim (Isolates target) (is_safe p target) (λ listed. Step.idle _ _ _ refl)
            (λ open_node.
              if_intro (Isolates target) (is_empty resolved_ip) (Step.idle _ _ _ refl)
                (address-Isolates target resolved_ip trace open_node))))

  release_target-Step :
      (target : Text) (trace : Trace)
      → Step (view p) (releasing target) (view (release_target h p target trace).1)
  unfolding release_target
  release_target-Step target trace =
      let Releases : Trace × PolicyEnforcer → Type 0 =
        λ result. Step (view p) (releasing target) (view result.1) in
      if_intro Releases (not (contains target p.isolated_nodes)) (Step.idle _ _ _ refl) (
        if_intro Releases (is_empty (resolve_target h p target)) (Step.release _ _ _ refl)
          (Step.release _ _ _ refl))

  pub perform-Step :
      (call : Call) (trace : Trace) → Step (view p) call (view (perform h call p trace).1)
  unfolding perform add_safe_node register_peer_ip register_peer_port set_node_id suspend_process
      reset_enforcement
  perform-Step (isolating target) trace = isolate_target-Isolates target trace
  perform-Step (releasing target) trace = release_target-Step target trace
  perform-Step (listing node_id) trace = Step.list _ _ _ refl
  perform-Step (naming node_id) trace = Step.idle _ _ _ refl
  perform-Step (mapping node_id ip) trace =
      if_intro (λ (q : PolicyEnforcer). Step (view p) (mapping node_id ip) (view q))
        (is_empty node_id || not (is_valid_ip h ip)) (Step.idle _ _ _ refl) (Step.idle _ _ _ refl)
  perform-Step (porting node_id port) trace =
      if_intro (λ (q : PolicyEnforcer). Step (view p) (porting node_id port) (view q))
        (is_empty node_id || port == 0) (Step.idle _ _ _ refl) (Step.idle _ _ _ refl)
  perform-Step (suspending pid) trace = Step.idle _ _ _ (ground arith)
  perform-Step resetting trace = Step.idle _ _ _ refl

-- Every history of calls, from every state, is a history of steps of the specification: a node becomes
-- isolated only by a call for it while it is not on the safe list, it stops being isolated only by a
-- call of `release_target` for it, and the safe list only grows.
pub run-Steps :
    (h : Host) (calls : List Call) (p : PolicyEnforcer) (trace : Trace)
    → Steps (view p) calls (view (run h calls p trace).1)
unfolding run
run-Steps h [] p trace = Steps.done _
run-Steps h (call ∷ calls) p trace =
    let result = perform h call p trace in
    Steps.next _ _ _ call calls (perform-Step h p call trace) (run-Steps h calls result.1 result.0)

-- On the safe list, and not isolated.
abbrev pub IsProtected : Text → Isolation → Type 0
IsProtected id s = (contains (normalized id) s.safe ≡ true) × (contains id s.isolated ≡ false)

Step-IsProtected :
    (id : Text) (s t : Isolation) (call : Call)
    → Step s call t
    → IsProtected id s
    → IsProtected id t
Step-IsProtected id s t _ (Step.isolate _ _ target unlisted e) (listed, free) = rw e (
  listed,
  rw contains-add (elim (Bool-cases (text_eq id target)) [
    | inl same ↦
        let equal = (text_eq_iff id target).0 same in
        let unlisted_id : contains (normalized id) s.safe ≡ false = rw equal unlisted in cc
    | inr other ↦ ground arith
  ]),
)
Step-IsProtected id s t _ (Step.release _ _ target e) (listed, free) =
    rw e (listed, rw contains-remove (ground arith))
Step-IsProtected id s t _ (Step.list _ _ node_id e) (listed, free) =
    rw e (rw contains-add (ground arith), free)
Step-IsProtected id s t _ (Step.idle _ _ call e) protected = rw e protected

Steps-IsProtected :
    (id : Text) (s t : Isolation) (calls : List Call)
    → Steps s calls t
    → IsProtected id s
    → IsProtected id t
Steps-IsProtected id s _ _ (Steps.done _) protected = protected
Steps-IsProtected id s t _ (Steps.next _ u _ call calls step steps) protected =
    Steps-IsProtected id u t calls steps (Step-IsProtected id s u call step protected)

-- A node on the safe list that is not isolated is not isolated after any history of calls, and it is
-- still on the safe list.
pub run-IsProtected :
    (h : Host) (calls : List Call) (p : PolicyEnforcer) (trace : Trace) (id : Text)
    → is_safe p id ≡ true
    → contains id p.isolated_nodes ≡ false
    → (is_safe (run h calls p trace).1 id ≡ true)
      × (contains id (run h calls p trace).1.isolated_nodes ≡ false)
unfolding is_safe
run-IsProtected h calls p trace id listed free =
    Steps-IsProtected id (view p) _ calls (run-Steps h calls p trace) (listed, free)
