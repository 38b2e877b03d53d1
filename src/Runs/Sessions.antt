-- ===== src/Runs/Sessions.antt =====
-- The theorems on sessions at concrete rules, counters and nodes.
use upg_vpp_tr.Base.{
  ℕ, ◌≡◌, refl, true, false, List, ◌∷◌, [], map, Option, none, some, arith, if◌then◌else◌, ◌==◌,
  has, Bool, ◌%◌, ◌^◌,
}
use upg_vpp_tr.Session.Diff
use upg_vpp_tr.Session.Diff.Laws.{run-vec_diff}
use upg_vpp_tr.Session.Tunnels
use upg_vpp_tr.Session.Tunnels.Laws.{given, update_tunnels-registered, update_tunnels-far_only}
use upg_vpp_tr.Session.Assoc
use upg_vpp_tr.Session.Assoc.Shape
use upg_vpp_tr.Session.Assoc.Laws.{Refines, node_assoc_attach_session-Refines}
use upg_vpp_tr.Session.Assoc.Refine.{
  Released, node_assoc_detach_session-Refines, pfcp_release_association-Released,
}
use upg_vpp_tr.Flow.Tcp.{without, contains}
use upg_vpp_tr.Flow.Table.Lists.{distinct}
use upg_vpp_tr.Session.Urr
use upg_vpp_tr.Session.Urr.Laws.{once, count_all-once, threshold_missed}
use upg_vpp_tr.Session.Urr.Drops.{lengths, process_all-drops}
use upg_vpp_tr.Session.Rules
use upg_vpp_tr.Session.Rules.{pdr, urr}
use upg_vpp_tr.Session.Rules.Laws.{commit, plain}
use upg_vpp_tr.Session.Rules.Delete.{rule_with, width, pfcp_delete-commit}
use upg_vpp_tr.Session.Rules.Usage.{usage, commit-usage}
use upg_vpp_tr.Runs.Sorting.{sorter}

-- Entries of a place and a value.
abbrev place : ℕ × ℕ → ℕ
place e = e.0

abbrev held : ℕ × ℕ → ℕ
held e = e.1

abbrev new_entries : List (ℕ × ℕ)
new_entries = (1, 10) ∷ (3, 30) ∷ []

abbrev old_entries : List (ℕ × ℕ)
old_entries = (2, 20) ∷ (3, 31) ∷ []

abbrev old_table : ℕ → Option ℕ
old_table q = if q == 2 then some 20 else if q == 3 then some 31 else none

run-vec_diff_example :
    Diff.run place held (Diff.vec_diff place held new_entries old_entries) old_table 3
    ≡ Diff.diffed place held
        (old_table 3)
        (Diff.entry place held 3 new_entries)
        (Diff.entry place held 3 old_entries)
unfolding Diff.sorted Diff.above
run-vec_diff_example = run-vec_diff place held new_entries old_entries 3 old_table refl refl

-- The rule of TEID 70 moves from place 1 to place 0, and TEID 71 is taken by two rules.
abbrev new_calls : List (ℕ × ℕ)
new_calls = (70, 0) ∷ (71, 1) ∷ (71, 2) ∷ []

abbrev old_calls : List (ℕ × ℕ)
old_calls = (69, 0) ∷ (70, 1) ∷ []

abbrev tunnels : ℕ → Option (Option ℕ × ℕ)
tunnels q = if q == 69 then some (some 0, 5) else if q == 70 then some (some 1, 5) else none

abbrev old_teids : List Tunnels.Endp
old_teids = Tunnels.registered [] old_calls

-- A FAR that gives TEID 72.
abbrev far_calls : List (ℕ × ℕ)
far_calls = (72, 4) ∷ []

update_tunnels-registered_example :
    ((Tunnels.update_tunnels 5
          (sorter Tunnels.endp_key (Tunnels.tunnel_value 5))
          (some new_calls)
          (some far_calls)
          old_teids
          tunnels).1
        70
      ≡ some (some 1, 5))
    × (Diff.entry Tunnels.endp_key
          (Tunnels.tunnel_value 5)
          70
          (Tunnels.update_tunnels 5
            (sorter Tunnels.endp_key (Tunnels.tunnel_value 5))
            (some new_calls)
            (some far_calls)
            old_teids
            tunnels).0
        ≡ some (record { key = 70; rule_index = some 0 }))
    × (Diff.apart Tunnels.endp_key
          (Tunnels.tunnel_value 5)
          (Tunnels.update_tunnels 5
            (sorter Tunnels.endp_key (Tunnels.tunnel_value 5))
            (some new_calls)
            (some far_calls)
            old_teids
            tunnels).0
        ≡ true)
unfolding Tunnels.registered Diff.apart Diff.diffed Tunnels.summary Tunnels.indices given
update_tunnels-registered_example =
    update_tunnels-registered 5 (sorter Tunnels.endp_key (Tunnels.tunnel_value 5)) new_calls
      (some far_calls) old_teids tunnels 70 refl

abbrev far_update : List Tunnels.Endp × (ℕ → Option (Option ℕ × ℕ))
far_update =
    Tunnels.update_tunnels 5 (sorter Tunnels.endp_key (Tunnels.tunnel_value 5)) none
      (some far_calls) old_teids tunnels

update_tunnels-far_only_example :
    (Diff.entry Tunnels.endp_key (Tunnels.tunnel_value 5) 72 far_update.0
      ≡ some (record { key = 72; rule_index = some 4 }))
    × (far_update.1 ≡ tunnels)
    × ((Tunnels.update_tunnels 5
            (sorter Tunnels.endp_key (Tunnels.tunnel_value 5))
            (some new_calls)
            (some far_calls)
            far_update.0
            far_update.1).1
          72
        ≡ tunnels 72)
unfolding Tunnels.registered Diff.apart Tunnels.indices given
update_tunnels-far_only_example =
    update_tunnels-far_only 5 (sorter Tunnels.endp_key (Tunnels.tunnel_value 5)) far_calls old_teids
      tunnels 72 4 4 [] new_calls (some far_calls) refl refl refl refl

abbrev no_sessions : Assoc.Store
no_sessions = record {
  heads = λ n. none;
  links = λ x. Assoc.unlinked;
  sessions = 4 ∷ 6 ∷ [];
  seids = λ x. x;
  session_by_id = λ q. none;
}

no_sessions-Refines : Refines no_sessions (λ n. [])
unfolding Shape.Seg Shape.first distinct
no_sessions-Refines = record { head = λ n. refl; seg = λ n. tt; once = λ n. refl }

-- A node with the sessions 6 and 4.
two : Assoc.Store
two = Assoc.node_assoc_attach_session 1 6 (Assoc.node_assoc_attach_session 1 4 no_sessions)

lists_of : ℕ → List ℕ
lists_of = Assoc.set (Assoc.set (λ n. []) 1 (4 ∷ [])) 1 (6 ∷ 4 ∷ [])

two-Refines : Refines two lists_of
unfolding two lists_of Assoc.set contains
two-Refines =
    node_assoc_attach_session-Refines (Assoc.node_assoc_attach_session 1 4 no_sessions)
      (Assoc.set (λ n. []) 1 (4 ∷ [])) 1 6
      (node_assoc_attach_session-Refines no_sessions (λ n. []) 1 4 no_sessions-Refines (λ m. refl))
      (λ m. ground arith)

node_assoc_detach_session-Refines_example :
    Refines (Assoc.node_assoc_detach_session 4 two) (Assoc.set lists_of 1 (without 4 (lists_of 1)))
unfolding lists_of Assoc.set contains
node_assoc_detach_session-Refines_example =
    node_assoc_detach_session-Refines two lists_of 1 4 two-Refines refl

pfcp_release_association-Released_example :
    Released two lists_of 1 (lists_of 1) (Assoc.pfcp_release_association 2 1 two)
unfolding lists_of Assoc.set
pfcp_release_association-Released_example =
    pfcp_release_association-Released 2 1 two lists_of two-Refines (omega arith)

abbrev unused : Urr.Counter
unused = record { packets = 0; bytes = 0; consumed = 0 }

abbrev limit : Urr.Limit
limit = record { threshold = 60; quota = 100 }

count_all-once_example :
    ((Urr.count_all limit Urr.urr_quota_exhausted unused (40 ∷ 50 ∷ 20 ∷ [])).1
      ≡ once limit.quota 0 (Urr.sum (40 ∷ 50 ∷ 20 ∷ [])))
    × ((Urr.count_all limit Urr.urr_threshold_reached unused (40 ∷ 50 ∷ 20 ∷ [])).1
        ≡ once limit.threshold 0 (Urr.sum (40 ∷ 50 ∷ 20 ∷ [])))
unfolding Urr.sum
count_all-once_example = count_all-once limit unused (40 ∷ 50 ∷ 20 ∷ []) (omega arith) (omega arith)

threshold_missed_example :
    let r = Urr.urr_increment_and_check_counter limit unused 60 in
    (has r.1 Urr.urr_threshold_reached ≡ true)
    × (has (Urr.urr_check_counter limit r.0) Urr.report_volume_threshold ≡ false)
    × ((Urr.count_all limit Urr.urr_threshold_reached r.0 (20 ∷ 30 ∷ [])).1 ≡ 0)
unfolding Urr.sum
threshold_missed_example =
    threshold_missed limit unused 60 (20 ∷ 30 ∷ []) (omega arith) (omega arith) (omega arith)
      (omega arith)

abbrev measured : Urr.Urr
measured = record {
  volume = record {
    ul = unused;
    dl = unused;
    total = unused;
    ul_limit = limit;
    dl_limit = limit;
    total_limit = limit;
  };
  status = 0;
}

abbrev both_ways : List (Bool × Bool × ℕ)
both_ways = (true, false, 70) ∷ (false, true, 60) ∷ []

process_all-drops_example : Urr.drops (Urr.process_all measured both_ways) ≡ true
unfolding Urr.sum lengths
process_all-drops_example =
    process_all-drops both_ways measured (omega arith) (omega arith) (omega arith)

abbrev search_in_order : Rules.Search
search_in_order = record { bsearch = Rules.position; bsearch_sorted = λ k q rs o. refl }

abbrev two_pdrs : List Rules.Pdr
two_pdrs = record { pdr_id = 1; pdr_rest = 10 } ∷ record { pdr_id = 2; pdr_rest = 20 } ∷ []

abbrev usage_rule : ℕ → Rules.Counts → Rules.Urr
usage_rule id bytes = record {
  urr_id = id;
  update_flags = 0;
  traffic = none;
  volume_method = true;
  measure = record { packets = Rules.no_counts; bytes = bytes; consumed = Rules.no_counts };
  urr_rest = 0;
}

abbrev some_bytes : Rules.Counts
some_bytes = record { ul = 5; dl = 6; total = 11 }

abbrev old_urrs : List Rules.Urr
old_urrs = usage_rule 1 some_bytes ∷ []

abbrev new_urrs : List Rules.Urr
new_urrs = usage_rule 1 Rules.no_counts ∷ usage_rule 2 Rules.no_counts ∷ []

abbrev only_urrs : List Rules.Urr → Rules.Vectors
only_urrs v Rules.pdr = some two_pdrs
only_urrs v Rules.far = none
only_urrs v Rules.urr = some v
only_urrs v Rules.qer = none

abbrev nothing : Rules.Vectors
nothing k = none

abbrev session : Rules.Session
session = record { active = true; slots = λ i. if i then only_urrs old_urrs else nothing }

pfcp_delete-commit_example :
    rule_with pdr 2 (
      Rules.rules_of pdr (
        Rules.active_rules
          (commit search_in_order (Rules.pfcp_delete search_in_order pdr session 1).0)
          pdr))
    ≡ (if 2 == 1 % 2 ^ width pdr then none else rule_with pdr 2 (map (Rules.copy pdr) two_pdrs))
unfolding Rules.pending_rules Rules.active_rules Rules.sorted Rules.above Rules.rule_id plain
pfcp_delete-commit_example =
    pfcp_delete-commit search_in_order pdr session 1 2 two_pdrs refl refl refl refl

abbrev changed : Rules.Session
changed = record {
  active = true;
  slots = λ i. if i then only_urrs old_urrs else only_urrs new_urrs;
}

commit-usage_example :
    rule_with urr 1 (Rules.rules_of urr (Rules.active_rules (commit search_in_order changed) urr))
    ≡ usage (rule_with urr 1 old_urrs) (rule_with urr 1 new_urrs)
unfolding Rules.pending_rules Rules.active_rules Rules.sorted Rules.above Rules.rule_id
commit-usage_example = commit-usage search_in_order changed 1 new_urrs old_urrs refl refl refl refl
