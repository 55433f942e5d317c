-- ===== src/Service/Transitions/Merge.antt =====
-- The merge of evidence in `_transition_with_evidence`: what was observed first stays.
use kestrel_cloud_runpod.Prelude.{
  ℕ, ◌≡◌, refl, sym, subst, Option, none, some, List, [], ◌∷◌, true, inl, inr, arith, Bool-cases,
  or_else,
}
use kestrel_cloud_runpod.Capacity.Evidence.{
  PodBillingReceipt, PodRealizedPlacement, CatalogWorkerEvidence, PodCapacityLifecycleEvidence,
  PodCapacityEvidence, Phase, phase_time, set_phase, observe_first, lifecycle_accepted,
  evidence_accepted,
}
use kestrel_cloud_runpod.Capacity.Errors.{Result, ok, raise}
use kestrel_cloud_runpod.Service.Transitions.{
  Given, unset, given, Observed, merge_lifecycle, merge_placement, merge_worker, merge_billing,
  merged, merge_evidence,
}

ok-eq : {A : Type 0} {a b : A} → ok a ≡ ok b → a ≡ b
ok-eq h = cc

-- `b` is what `a` was, if there was any.
abbrev pub Kept : {A : Type 0} → Option A → Option A → Type 0
Kept a b = or_else a b ≡ b

Kept-refl : {A : Type 0} (a : Option A) → Kept a a
Kept-refl none = refl
Kept-refl (some a) = refl

Kept-or_else : {A : Type 0} (a b : Option A) → Kept a (or_else a b)
Kept-or_else none b = refl
Kept-or_else (some a) b = refl

Kept-trans : {A : Type 0} (a b c : Option A) → Kept a b → Kept b c → Kept a c
Kept-trans none b c h k = refl
Kept-trans (some a) b c h k = subst (λ o. Kept o c) (sym h) k

set_phase-Kept :
    (p q : Phase) (t : Option ℕ) (e : PodCapacityLifecycleEvidence)
    → Kept (phase_time q e) (phase_time q (set_phase p (or_else (phase_time p e) t) e))
unfolding phase_time set_phase
set_phase-Kept Phase.provider_create_accepted_at Phase.provider_create_accepted_at t e =
    Kept-or_else _ t
set_phase-Kept Phase.provider_adopted_at Phase.provider_adopted_at t e = Kept-or_else _ t
set_phase-Kept Phase.first_running_observed_at Phase.first_running_observed_at t e =
    Kept-or_else _ t
set_phase-Kept Phase.worker_ready_at Phase.worker_ready_at t e = Kept-or_else _ t
set_phase-Kept Phase.workload_submitted_at Phase.workload_submitted_at t e = Kept-or_else _ t
set_phase-Kept Phase.workload_running_at Phase.workload_running_at t e = Kept-or_else _ t
set_phase-Kept Phase.workload_terminal_at Phase.workload_terminal_at t e = Kept-or_else _ t
set_phase-Kept Phase.stop_confirmed_at Phase.stop_confirmed_at t e = Kept-or_else _ t
set_phase-Kept Phase.billing_reconciled_at Phase.billing_reconciled_at t e = Kept-or_else _ t
set_phase-Kept _ _ t e = Kept-refl _

observe_first-Kept :
    (q : Phase) (ps : List (Phase × ℕ)) (e : PodCapacityLifecycleEvidence)
    → Kept (phase_time q e) (phase_time q (observe_first ps e))
unfolding observe_first
observe_first-Kept q [] e = Kept-refl _
observe_first-Kept q ((p, t) ∷ ps) e =
    let e' : PodCapacityLifecycleEvidence = set_phase p (or_else (phase_time p e) (some t)) e in
    Kept-trans (phase_time q e) (phase_time q e') (phase_time q (observe_first ps e'))
      (set_phase-Kept p q (some t) e) (observe_first-Kept q ps e')

merge_lifecycle-Kept :
    (q : Phase) (ps : List (Phase × ℕ)) (e : PodCapacityLifecycleEvidence)
    {e' : PodCapacityLifecycleEvidence}
    → merge_lifecycle ps e ≡ ok e'
    → Kept (phase_time q e) (phase_time q e')
unfolding merge_lifecycle
merge_lifecycle-Kept q [] e h =
    subst (λ x. Kept (phase_time q e) (phase_time q x)) (ok-eq h) (Kept-refl _)
merge_lifecycle-Kept q (p ∷ ps) e h =
    elim (Bool-cases (lifecycle_accepted (observe_first (p ∷ ps) e))) [
      | inr n ↦ cc (rw n at h)
      | inl y ↦
          subst (λ x. Kept (phase_time q e) (phase_time q x)) (ok-eq (rw y at h))
            (observe_first-Kept q (p ∷ ps) e)
    ]

merge_placement-Kept :
    (g : Given (Option PodRealizedPlacement)) (o : Option PodRealizedPlacement)
    {o' : Option PodRealizedPlacement}
    → merge_placement g o ≡ ok o'
    → Kept o o'
unfolding merge_placement
merge_placement-Kept unset o h = subst (Kept o) (ok-eq h) (Kept-refl o)
merge_placement-Kept (given none) o h = cc
merge_placement-Kept (given (some p)) none h = refl
merge_placement-Kept (given (some p)) (some r) h = ground arith

merge_worker-Kept :
    (g : Given CatalogWorkerEvidence) (o : Option CatalogWorkerEvidence)
    {o' : Option CatalogWorkerEvidence}
    → merge_worker g o ≡ ok o'
    → Kept o o'
unfolding merge_worker
merge_worker-Kept unset o h = subst (Kept o) (ok-eq h) (Kept-refl o)
merge_worker-Kept (given v) none h = refl
merge_worker-Kept (given v) (some w) h = ground arith

merge_billing-Kept :
    (g : Given (Option PodBillingReceipt)) (o : Option PodBillingReceipt)
    {o' : Option PodBillingReceipt}
    → merge_billing g o ≡ ok o'
    → Kept o o'
unfolding merge_billing
merge_billing-Kept unset o h = subst (Kept o) (ok-eq h) (Kept-refl o)
merge_billing-Kept (given none) none h = refl
merge_billing-Kept (given none) (some b) h = cc
merge_billing-Kept (given (some v)) none h = refl
merge_billing-Kept (given (some v)) (some b) h = ground arith

-- The four merges behind a merge that succeeded.
record Merged (seen : Observed) (e e' : PodCapacityEvidence) : Type 0 where
  pub lifecycle : merge_lifecycle seen.lifecycle e.lifecycle ≡ ok e'.lifecycle
  pub realized_placement :
      merge_placement seen.realized_placement e.realized_placement ≡ ok e'.realized_placement
  pub worker : merge_worker seen.worker e.worker ≡ ok e'.worker
  pub billing : merge_billing seen.billing e.billing ≡ ok e'.billing
  pub accepted : evidence_accepted e' ≡ true
  pub bound : e' ≡ record e {
    lifecycle = e'.lifecycle;
    realized_placement = e'.realized_placement;
    worker = e'.worker;
    billing = e'.billing;
  }

merged-Merged :
    (seen : Observed) (e : PodCapacityEvidence) {e' : PodCapacityEvidence}
    (l : Result PodCapacityLifecycleEvidence) (p : Result (Option PodRealizedPlacement))
    (w : Result (Option CatalogWorkerEvidence)) (b : Result (Option PodBillingReceipt))
    → merge_lifecycle seen.lifecycle e.lifecycle ≡ l
    → merge_placement seen.realized_placement e.realized_placement ≡ p
    → merge_worker seen.worker e.worker ≡ w
    → merge_billing seen.billing e.billing ≡ b
    → merged e l p w b ≡ ok e'
    → Merged seen e e'
unfolding merged
merged-Merged seen e (raise x) p w b el ep ew eb h = cc
merged-Merged seen e (ok l) (raise x) w b el ep ew eb h = cc
merged-Merged seen e (ok l) (ok p) (raise x) b el ep ew eb h = cc
merged-Merged seen e (ok l) (ok p) (ok w) (raise x) el ep ew eb h = cc
merged-Merged seen e (ok l) (ok p) (ok w) (ok b) el ep ew eb h =
    elim (Bool-cases (
      evidence_accepted
        (record e { lifecycle = l; realized_placement = p; worker = w; billing = b }))) [
          | inr n ↦ cc (rw n at h)
          | inl y ↦ subst (Merged seen e) (ok-eq (rw y at h)) (record {
            lifecycle = el;
            realized_placement = ep;
            worker = ew;
            billing = eb;
            accepted = y;
            bound = refl;
          })
        ]

merge_evidence-Merged :
    (seen : Observed) (e : PodCapacityEvidence) {e' : PodCapacityEvidence}
    → merge_evidence seen e ≡ ok e'
    → Merged seen e e'
unfolding merge_evidence
merge_evidence-Merged seen e h = merged-Merged seen e _ _ _ _ refl refl refl refl h

-- Evidence only accumulates: after a merge that succeeds, every phase time, the realized placement,
-- the worker's telemetry and the billing receipt that were recorded are as they were, the identity
-- and the accepted quote are unchanged, and the new value satisfies the checks of its dataclasses.
pub merge_evidence_keeps_first :
    (seen : Observed) (e : PodCapacityEvidence) {e' : PodCapacityEvidence} (phase : Phase)
    → merge_evidence seen e ≡ ok e'
    → Kept (phase_time phase e.lifecycle) (phase_time phase e'.lifecycle)
      × Kept e.realized_placement e'.realized_placement
      × Kept e.worker e'.worker
      × Kept e.billing e'.billing
      × (e' ≡ record e {
        lifecycle = e'.lifecycle;
        realized_placement = e'.realized_placement;
        worker = e'.worker;
        billing = e'.billing;
      })
      × (evidence_accepted e' ≡ true)
merge_evidence_keeps_first seen e phase h =
    let m = merge_evidence-Merged seen e h in
    (
      merge_lifecycle-Kept phase seen.lifecycle e.lifecycle m.lifecycle,
      merge_placement-Kept seen.realized_placement e.realized_placement m.realized_placement,
      merge_worker-Kept seen.worker e.worker m.worker,
      merge_billing-Kept seen.billing e.billing m.billing,
      m.bound,
      m.accepted,
    )
