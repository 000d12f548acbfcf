-- ===== src/Tests/Parallel.antt =====
-- The theorems on the parallel runs with small regions.
use systemrs.Base.{ℕ, ◌≤◌, List, [], ◌∷◌, ◌≡◌, refl, sym, inl, inr, ap, ◌∙◌, arith}
use mathlib.Core.List.{Permᴰ}
use systemrs.Time.{SimTime}
use systemrs.Pdes.{
  BoundaryMessage, BoundaryLink, OrchestratorBuilder, connect, send, RegionOps, run, sort_by_key,
}
use systemrs.Pdes.Exchange.{DistinctKeys, sort_by_key-Permᴰ}
use systemrs.Pdes.Boundaries.{Ended, run-Ended, lookahead}

-- A region that keeps its time and its outbox.
abbrev counters : RegionOps (SimTime × List (BoundaryMessage ℕ)) ℕ
counters = record {
  run_to_boundary = λ boundary (now, out). (boundary, out);
  drain_outbox = λ (now, out). (out, (now, []));
  commit = λ inbox (now, out). (now, out);
}

run-Ended_example : Ended counters 30 100 0 (run counters 101 30 100 ((0, []) ∷ (0, []) ∷ []))
run-Ended_example =
    run-Ended counters 100 30 100 ((0, []) ∷ (0, []) ∷ []) (omega arith) (omega arith) (omega arith)

abbrev builder : OrchestratorBuilder
builder = record { quantum = 30; next_link = 0 }

abbrev link : BoundaryLink
link = record { dst_region = 1; link_id = 0; latency = 40 }

lookahead_example : 60 ≤ (send {A = ℕ} link 35 0 7).deliver_at
unfolding connect
lookahead_example =
    lookahead builder (record { quantum = 30; next_link = 1 }) 1 0 40 link 7 30 35 60 refl
      (omega arith) (omega arith) (omega arith)

abbrev first_message : BoundaryMessage ℕ
first_message = record { deliver_at = 70; dst_region = 1; dst_link = 0; src_seq = 0; payload = 7 }

abbrev second_message : BoundaryMessage ℕ
second_message = record { deliver_at = 70; dst_region = 0; dst_link = 1; src_seq = 0; payload = 8 }

two_messages-DistinctKeys : DistinctKeys (first_message ∷ second_message ∷ [])
two_messages-DistinctKeys a b (inl e) (inl f) same = sym e ∙ f
two_messages-DistinctKeys a b (inl e) (inr (inl f)) (_, region, _, _) =
    absurd (omega (arith, region, ap (λ m. m.dst_region) e, ap (λ m. m.dst_region) f))
two_messages-DistinctKeys a b (inr (inl e)) (inl f) (_, region, _, _) =
    absurd (omega (arith, region, ap (λ m. m.dst_region) e, ap (λ m. m.dst_region) f))
two_messages-DistinctKeys a b (inr (inl e)) (inr (inl f)) same = sym e ∙ f
two_messages-DistinctKeys a b (inr (inr w)) mb same = absurd w
two_messages-DistinctKeys a b (inl e) (inr (inr w)) same = absurd w
two_messages-DistinctKeys a b (inr (inl e)) (inr (inr w)) same = absurd w

sort_by_key-Permᴰ_example :
    sort_by_key (first_message ∷ second_message ∷ [])
    ≡ sort_by_key (second_message ∷ first_message ∷ [])
sort_by_key-Permᴰ_example =
    sort_by_key-Permᴰ (first_message ∷ second_message ∷ []) (second_message ∷ first_message ∷ [])
      (Permᴰ.swap refl refl) two_messages-DistinctKeys
