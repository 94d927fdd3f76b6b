-- ===== src/Enforcer/Tests.antt =====
-- Runs of enforcer/PolicyEnforcer.cpp on a concrete host.
use neuro_mesh.Prelude.{
  ℕ, ◌≡◌, refl, true, false, none, some, List, [], ◌∷◌, Text, codes, text_eq, nat_key,
  if◌then◌else◌, text_key, arith, ◌==◌,
}
use neuro_mesh.Prelude.Dict.{contains, add}
use neuro_mesh.Enforcer.Types.{Host, Command, PolicyEnforcer, execute}
use neuro_mesh.Enforcer.Addresses.{
  normalized, is_safe, is_valid_ipv4, is_valid_ipv6, is_valid_ip, is_loopback, is_loopback_ipv6,
  resolve_target,
}
use neuro_mesh.Enforcer.Nftables.{
  find_nft_handles, add_rule, drop_all, apply_nftables_drop, on_loopback,
}
use neuro_mesh.Enforcer.Nftables.Listing.{
  Line, rule, plain, print, matching, find_nft_handles-print,
}
use neuro_mesh.Enforcer.Backends.{
  map_path, change_ebpf_map, apply_ebpf_drop, drop_address, block_ip_address,
}
use neuro_mesh.Enforcer.Backends.Order.{Extends, IsBlocked, block_ip_address-IsBlocked}
use neuro_mesh.Enforcer.Isolation.{record_isolation, isolate_address, on_cooldown, isolate_target}
use neuro_mesh.Enforcer.Isolation.Outcome.{IsOutcome, isolate_target-IsOutcome}
use neuro_mesh.Enforcer.Isolation.Refinement.{
  Call, isolating, releasing, listing, mapping, resetting, run, view, Steps, run-Steps,
  run-IsProtected,
}
use neuro_mesh.Enforcer.Isolation.Commands.{Given, isolate_target-Given}
use neuro_mesh.Enforcer.Processes.{reset_enforcement}
use neuro_mesh.Enforcer.Processes.Reset.{IsResume, IsResumed, reset_enforcement-Resumes}

abbrev ten : Text
ten = codes "10.0.0.1"

abbrev local : Text
local = codes "127.0.0.1"

-- A host that knows two addresses, on which every command succeeds.
abbrev toy_host : Host
toy_host = record {
  inet_pton4 = λ text.
      if text_eq text ten
      then some 167772161
      else if text_eq text local
      then some 2130706433
      else none;
  inet_ntop4 = λ addr. if addr == 167772161 then ten else local;
  inet_pton6 = λ text. none;
  now = λ trace. 10000000000;
  succeeds = λ trace command. true;
  printed = λ trace. [];
  pidfd_open = λ trace pid. if pid == 5 then some 7 else none;
}

abbrev fresh : PolicyEnforcer
fresh = record {
  node_id = codes "n";
  isolated_nodes = [];
  safe_list = [];
  suspended_pids = [];
  suspended_pidfds = [];
  peer_ip_map = [];
  peer_port_map = [];
  last_enforce_time = 0;
  backends = record { ebpf = true; nftables = true; iptables = true };
}

abbrev alpha : Text
alpha = codes "alpha"

abbrev lines : List Line
lines =
    plain (codes "chain INPUT {")
    ∷ rule (codes "ip saddr 10.0.0.10 counter drop") 4
    ∷ rule (codes "ip saddr 10.0.0.2 counter drop") 5
    ∷ []

find_nft_handles-print_example : find_nft_handles (print lines) (codes "10.0.0.2") ≡ 5 ∷ []
unfolding find_nft_handles print matching
find_nft_handles-print_example =
    find_nft_handles-print (codes "10.0.0.2") lines
      ((refl, refl), (((refl, refl, refl), ground arith), (((refl, refl, refl), ground arith), tt)))

block_ip_address-IsBlocked_example :
    IsBlocked toy_host fresh ten [] (block_ip_address toy_host fresh ten []).0
unfolding block_ip_address is_valid_ip is_valid_ipv4 is_valid_ipv6 is_loopback is_loopback_ipv6
    drop_address apply_ebpf_drop change_ebpf_map execute map_path text_eq
block_ip_address-IsBlocked_example = block_ip_address-IsBlocked toy_host fresh ten [] refl

isolate_target-IsOutcome_example :
    IsOutcome toy_host fresh ten (isolate_target toy_host fresh ten [])
isolate_target-IsOutcome_example = isolate_target-IsOutcome toy_host fresh ten []

isolate_target-Given_example :
    (is_safe fresh ten ≡ true → (isolate_target toy_host fresh ten []).0 ≡ [])
    × Given toy_host fresh ten []
        (resolve_target toy_host fresh ten)
        (isolate_target toy_host fresh ten []).0
isolate_target-Given_example = isolate_target-Given toy_host fresh ten []

abbrev calls : List Call
calls = mapping alpha ten ∷ isolating alpha ∷ listing (codes "b") ∷ releasing alpha ∷ resetting ∷ []

run-Steps_example :
    Steps (record { isolated = []; safe = [] }) calls (view (run toy_host calls fresh []).1)
run-Steps_example = run-Steps toy_host calls fresh []

abbrev guarded : PolicyEnforcer
guarded = record fresh { safe_list = codes "ALPHA" ∷ [] }

run-IsProtected_example :
    (is_safe (run toy_host calls guarded []).1 alpha ≡ true)
    × (contains alpha (run toy_host calls guarded []).1.isolated_nodes ≡ false)
unfolding is_safe normalized contains text_eq
run-IsProtected_example = run-IsProtected toy_host calls guarded [] alpha refl refl

abbrev jailed : PolicyEnforcer
jailed = record fresh { suspended_pids = 5 ∷ 6 ∷ []; suspended_pidfds = (5, 7) ∷ [] }

reset_enforcement-Resumes_example :
    let given = IsResume (5 ∷ 6 ∷ []) ((5, 7) ∷ []) in
    let (end, after) = reset_enforcement toy_host jailed [] in
    ((pid : ℕ)
      → contains pid (5 ∷ 6 ∷ []) ≡ true
      → IsResumed toy_host given ((5, 7) ∷ []) [] end pid)
    × Extends given [] end
    × (after.suspended_pids ≡ [])
    × (after.suspended_pidfds ≡ [])
reset_enforcement-Resumes_example = reset_enforcement-Resumes toy_host jailed []

-- Without the map, the rules of nftables are added.
abbrev no_map : Host
no_map = record toy_host {
  succeeds = λ trace command. elim command [ Command.open_map path ↦ false | _ ↦ true ];
}

isolate_without_map :
    (isolate_target no_map fresh ten []).0
    ≡ add_rule (on_loopback (drop_all ten))
      ∷ add_rule (drop_all ten)
      ∷ Command.open_map (map_path (codes "n"))
      ∷ []
unfolding isolate_target isolate_address is_valid_ip is_valid_ipv4 is_valid_ipv6 is_loopback
    is_loopback_ipv6 drop_address apply_ebpf_drop change_ebpf_map execute map_path text_eq
    apply_nftables_drop record_isolation resolve_target on_cooldown is_safe normalized contains add
isolate_without_map = refl
