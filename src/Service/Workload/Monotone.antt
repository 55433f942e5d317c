-- ===== src/Service/Workload/Monotone.antt =====
-- What an observation may change: `_catalog_observation_changes` never takes a workload back, and
-- never rewrites a hand-off.
use kestrel_cloud_runpod.Prelude.{
  ℕ, ◌≡◌, refl, sym, ◌∙◌, subst, ◌≤◌, ◌⊎◌, inl, inr, le_refl, String, Option, none, some, List, [],
  ◌∷◌, ◌++◌, Bool, true, false, not, ◌||◌, ◌&&◌, arith, Bool-cases, ||-right, is_none, or_else,
  opt_str_eq, opt_str_eq_sound, str_eq,
}
use kestrel_cloud_runpod.Capacity.States.{CatalogPodWorkloadState}
use kestrel_cloud_runpod.Capacity.Evidence.{Phase}
use kestrel_cloud_runpod.Capacity.Lease.{
  TrainingPodLease, PodCapacitySpec, CatalogArtifactHandoffEvidence,
}
use kestrel_cloud_runpod.Capacity.Errors.{Result, ok, raise}
use kestrel_cloud_runpod.Repository.Columns.{Change, assign, assign_all}
use kestrel_cloud_runpod.Repository.Columns
use kestrel_cloud_runpod.Service.World.{WorkloadObservation, Acknowledgement}
use kestrel_cloud_runpod.Service.Workload.Observation.{
  is_handoff, handoff_eq, bind_handoff, observe_ack, after_binding, observe_handoff, proof_changes,
  rank, rank_or_4, outranks, is_frozen, advance, workload_changes, bound_changes, protocol_refuses,
  observation_changes, binds, bind_acknowledgement,
}

-- How an observation at `t` with the acknowledgement `ack` treats the evidence of a hand-off.
data Handed (t : ℕ) (ack : Option String)
    : Option CatalogArtifactHandoffEvidence → Option CatalogArtifactHandoffEvidence → Type 0 where
  kept : (stored : Option CatalogArtifactHandoffEvidence) → Handed t ack stored stored
  bound :
      (h : CatalogArtifactHandoffEvidence)
      → h.remote_ack_observed_at ≡ none
      → Handed t ack none (some h)
  proved :
      (h : CatalogArtifactHandoffEvidence)
      → is_none h.acknowledgement_sha256 ≡ false
      → h.acknowledgement_sha256 ≡ ack
      → Handed t ack
          (some h)
          (some (record h { remote_ack_observed_at = or_else h.remote_ack_observed_at (some t) }))

Handed-ok :
    {t : ℕ} {ack : Option String} {stored h : Option CatalogArtifactHandoffEvidence}
    {handoff : Option CatalogArtifactHandoffEvidence}
    → Handed t ack stored h
    → ok h ≡ ok handoff
    → Handed t ack stored handoff
Handed-ok {t} {ack} {stored} {h} {handoff} x e =
    let same : h ≡ handoff = cc in
    subst (λ (o : Option CatalogArtifactHandoffEvidence). Handed t ack stored o) same x

observe_ack-Handed :
    (t : ℕ) (ack : Option String) (h : CatalogArtifactHandoffEvidence)
    {handoff : Option CatalogArtifactHandoffEvidence}
    → after_binding true t ack (ok h) ≡ ok handoff
    → Handed t ack (some h) handoff
unfolding observe_ack
observe_ack-Handed t ack h e =
    elim (Bool-cases
      (not (is_none h.acknowledgement_sha256) && opt_str_eq h.acknowledgement_sha256 ack)) [
        | inr n ↦ cc (rw (after_binding, n) at e)
        | inl y ↦
            let intended : is_none h.acknowledgement_sha256 ≡ false = ground arith in
            let same : opt_str_eq h.acknowledgement_sha256 ack ≡ true = ground arith in
            Handed-ok (proved h intended (opt_str_eq_sound _ _ same)) (rw (after_binding, y) at e)
      ]

bind_handoff-Handed :
    (t : ℕ) (ack : Option String) (b : Bool) (spec : PodCapacitySpec)
    (result receipt : Option String) (stored : Option CatalogArtifactHandoffEvidence)
    {handoff : Option CatalogArtifactHandoffEvidence}
    → after_binding b t ack (bind_handoff spec result receipt stored) ≡ ok handoff
    → Handed t ack stored handoff
unfolding bind_handoff observe_ack
bind_handoff-Handed t ack false spec (some result) (some receipt) none h =
    Handed-ok (bound _ refl) h
bind_handoff-Handed t ack true spec (some result) (some receipt) none h = cc
bind_handoff-Handed t ack false spec (some result) (some receipt) (some s) h =
    elim (Bool-cases (str_eq s.result_sha256 result && str_eq s.receipt_sha256 receipt)) [
      | inr n ↦ cc (rw n at h)
      | inl y ↦ Handed-ok (kept (some s)) (rw y at h)
    ]
bind_handoff-Handed t ack true spec (some result) (some receipt) (some s) h =
    elim (Bool-cases (str_eq s.result_sha256 result && str_eq s.receipt_sha256 receipt)) [
      | inr n ↦ cc (rw n at h)
      | inl y ↦ observe_ack-Handed t ack s (rw y at h)
    ]
bind_handoff-Handed t ack b spec none receipt stored h = cc
bind_handoff-Handed t ack b spec (some result) none stored h = cc

observe_handoff-Handed :
    (t : ℕ) (spec : PodCapacitySpec) (o : WorkloadObservation)
    (stored : Option CatalogArtifactHandoffEvidence)
    {handoff : Option CatalogArtifactHandoffEvidence}
    → observe_handoff t spec o stored ≡ ok handoff
    → Handed t o.acknowledgement_sha256 stored handoff
unfolding observe_handoff
observe_handoff-Handed t spec o stored h = elim (Bool-cases (is_handoff o.state)) [
  | inl y ↦ bind_handoff-Handed t o.acknowledgement_sha256 _ spec _ _ stored (rw y at h)
  | inr n ↦ Handed-ok (kept stored) (rw n at h)
]

assign_all-++ :
    (a b : List Change) (l : TrainingPodLease)
    → assign_all (a ++ b) l ≡ assign_all b (assign_all a l)
unfolding assign_all
assign_all-++ [] b l = refl
assign_all-++ (c ∷ a) b l = assign_all-++ a b (assign c l)

-- The changes of the columns beside the hand-off.
abbrev news : ℕ → WorkloadObservation → List Change
news t o =
    Columns.workload_state o.state
    ∷ Columns.workload_error_type o.error_type
    ∷ Columns.last_provider_error none
    ∷ Columns.last_heartbeat_at t
    ∷ (advance t o.attempt_id o.state).0

news-workload_state :
    (t : ℕ) (a : String) (s : CatalogPodWorkloadState) (e : Option String) (l : TrainingPodLease)
    → let cs : List Change =
        Columns.workload_state s
        ∷ Columns.workload_error_type e
        ∷ Columns.last_provider_error none
        ∷ Columns.last_heartbeat_at t
        ∷ (advance t a s).0 in
      ((assign_all cs l).workload_state ≡ s)
      × ((assign_all cs l).artifact_handoff ≡ l.artifact_handoff)
unfolding assign_all advance
news-workload_state t a CatalogPodWorkloadState.running e l = (refl, refl)
news-workload_state t a CatalogPodWorkloadState.succeeded e l = (refl, refl)
news-workload_state t a CatalogPodWorkloadState.awaiting_ack e l = (refl, refl)
news-workload_state t a CatalogPodWorkloadState.acknowledged e l = (refl, refl)
news-workload_state t a CatalogPodWorkloadState.failed e l = (refl, refl)
news-workload_state t a CatalogPodWorkloadState.cancelled e l = (refl, refl)
news-workload_state t a CatalogPodWorkloadState.cancel_requested e l = (refl, refl)
news-workload_state t a CatalogPodWorkloadState.not_submitted e l = (refl, refl)
news-workload_state t a CatalogPodWorkloadState.idle e l = (refl, refl)

-- The lease after the proof changes: the same, or with the evidence that was observed.
proof_changes-writes :
    (handoff : Option CatalogArtifactHandoffEvidence) (l : TrainingPodLease)
    → (assign_all (proof_changes handoff l.artifact_handoff) l ≡ l)
      ⊎ (assign_all (proof_changes handoff l.artifact_handoff) l
          ≡ record l { artifact_handoff = handoff })
unfolding proof_changes assign_all assign
proof_changes-writes handoff l = go handoff l.artifact_handoff
  where
    go :
        (h s : Option CatalogArtifactHandoffEvidence)
        → (assign_all (proof_changes h s) l ≡ l)
          ⊎ (assign_all (proof_changes h s) l ≡ record l { artifact_handoff = h })
    go none none = inl refl
    go (some h) none = inr refl
    go none (some s) = inr refl
    go (some h) (some s) = elim (Bool-cases (handoff_eq h s)) [
      | inl y ↦ inl (rw y refl)
      | inr n ↦ inr (rw n refl)
    ]

-- How the observed lease differs: the proof alone, or the proof and the news.
observed-cases :
    (t : ℕ) (l : TrainingPodLease) (o : WorkloadObservation) (b : Bool) (proof : List Change)
    → ((workload_changes t l o b proof ≡ (proof, []))
        × (is_frozen l || outranks (rank l.workload_state) (rank o.state) ≡ true))
      ⊎ (((workload_changes t l o b proof).0 ≡ proof ++ news t o)
          × (is_frozen l || outranks (rank l.workload_state) (rank o.state) ≡ false))
unfolding workload_changes
observed-cases t l o b proof =
    elim (Bool-cases (is_frozen l || outranks (rank l.workload_state) (rank o.state))) [
      | inl y ↦ inl (rw y, y)
      | inr n ↦ inr (rw n, n)
    ]

-- What an observation makes of a lease: its hand-off is treated by the rules, and its workload is
-- where it was, or where it was observed.
record Sighted (t : ℕ) (o : WorkloadObservation) (l m : TrainingPodLease) : Type 0 where
  pub handed : Handed t o.acknowledgement_sha256 l.artifact_handoff m.artifact_handoff
  pub workload :
      (m.workload_state ≡ l.workload_state)
      ⊎ ((m.workload_state ≡ o.state) × (outranks (rank l.workload_state) (rank o.state) ≡ false))

proved-Sighted :
    (t : ℕ) (o : WorkloadObservation) (l : TrainingPodLease)
    (handoff : Option CatalogArtifactHandoffEvidence)
    → Handed t o.acknowledgement_sha256 l.artifact_handoff handoff
    → Sighted t o l (assign_all (proof_changes handoff l.artifact_handoff) l)
proved-Sighted t o l handoff h = elim (proof_changes-writes handoff l) [
  | inl e ↦
      subst (Sighted t o l) (sym e)
        (record { handed = kept l.artifact_handoff; workload = inl refl })
  | inr e ↦ subst (Sighted t o l) (sym e) (record { handed = h; workload = inl refl })
]

news-Sighted :
    (t : ℕ) (o : WorkloadObservation) (l m : TrainingPodLease)
    → outranks (rank l.workload_state) (rank o.state) ≡ false
    → Sighted t o l m
    → Sighted t o l (assign_all (news t o) m)
news-Sighted t o l m n s =
    let (w, a) = news-workload_state t o.attempt_id o.state o.error_type m in
    record {
      handed = subst (λ h. Handed t o.acknowledgement_sha256 l.artifact_handoff h) (sym a) s.handed;
      workload = inr (w, n);
    }

workload_changes-Sighted :
    (t : ℕ) (l : TrainingPodLease) (o : WorkloadObservation) (b : Bool)
    (handoff : Option CatalogArtifactHandoffEvidence)
    → Handed t o.acknowledgement_sha256 l.artifact_handoff handoff
    → Sighted t o l
        (assign_all (workload_changes t l o b (proof_changes handoff l.artifact_handoff)).0 l)
workload_changes-Sighted t l o b handoff h =
    let proof : List Change = proof_changes handoff l.artifact_handoff in
    let s : Sighted t o l (assign_all proof l) = proved-Sighted t o l handoff h in
    elim (observed-cases t l o b proof) [
      | inl (e, _) ↦
          subst (λ (cs : List Change × List (Phase × ℕ)). Sighted t o l (assign_all cs.0 l)) (sym e)
            s
      | inr (e, n) ↦
          subst (λ (cs : List Change). Sighted t o l (assign_all cs l)) (sym e)
            (subst (Sighted t o l) (sym (assign_all-++ proof (news t o) l))
              (news-Sighted t o l (assign_all proof l) (||-right _ _ n) s))
    ]

bound_changes-Sighted :
    (t : ℕ) (l : TrainingPodLease) (o : WorkloadObservation) (b : Bool)
    (r : Result (Option CatalogArtifactHandoffEvidence)) {changes : List Change × List (Phase × ℕ)}
    → ((handoff : Option CatalogArtifactHandoffEvidence)
        → r ≡ ok handoff
        → Handed t o.acknowledgement_sha256 l.artifact_handoff handoff)
    → bound_changes t l o b r ≡ ok changes
    → Sighted t o l (assign_all changes.0 l)
unfolding bound_changes
bound_changes-Sighted t l o b (raise e) h x = cc
bound_changes-Sighted t l o b (ok handoff) {changes} h x =
    let same : workload_changes t l o b (proof_changes handoff l.artifact_handoff) ≡ changes = cc in
    subst (λ (cs : List Change × List (Phase × ℕ)). Sighted t o l (assign_all cs.0 l)) same
      (workload_changes-Sighted t l o b handoff (h handoff refl))

observation_changes-Sighted :
    (t : ℕ) (spec : PodCapacitySpec) (l : TrainingPodLease) (o : WorkloadObservation) (b : Bool)
    {changes : List Change × List (Phase × ℕ)}
    → observation_changes t spec l o b ≡ ok changes
    → Sighted t o l (assign_all changes.0 l)
unfolding observation_changes
observation_changes-Sighted t spec l o b {changes} h =
    elim (Bool-cases (protocol_refuses spec.request.artifact_handoff_protocol_version o.state)) [
      | inl y ↦ cc (rw y at h)
      | inr n ↦
          bound_changes-Sighted t l o b _
            (λ handoff e. observe_handoff-Handed t spec o l.artifact_handoff e) (rw n at h)
    ]

rank_le : (s : CatalogPodWorkloadState) → rank_or_4 (rank s) ≤ 4
unfolding rank
rank_le CatalogPodWorkloadState.running = omega arith
rank_le CatalogPodWorkloadState.succeeded = omega arith
rank_le CatalogPodWorkloadState.awaiting_ack = omega arith
rank_le CatalogPodWorkloadState.acknowledged = omega arith
rank_le CatalogPodWorkloadState.failed = omega arith
rank_le CatalogPodWorkloadState.cancelled = omega arith
rank_le CatalogPodWorkloadState.cancel_requested = omega arith
rank_le CatalogPodWorkloadState.not_submitted = omega arith
rank_le CatalogPodWorkloadState.idle = omega arith

outranks-le :
    (s : CatalogPodWorkloadState) (b : Option ℕ)
    → outranks (rank s) b ≡ false
    → rank_or_4 (rank s) ≤ rank_or_4 b
outranks-le s none h = rank_le s
outranks-le s (some r) h = ground arith

-- An observation that is taken never takes the workload back: in the order idle, running, result
-- ready, acknowledged, and last every end (failed, cancelled, cancel requested), the workload of the
-- lease that is written stands no lower than it stood.
pub observation_never_regresses :
    (t : ℕ) (spec : PodCapacitySpec) (l : TrainingPodLease) (o : WorkloadObservation)
    (submitted : Bool) {changes : List Change × List (Phase × ℕ)}
    → observation_changes t spec l o submitted ≡ ok changes
    → rank_or_4 (rank l.workload_state) ≤ rank_or_4 (rank (assign_all changes.0 l).workload_state)
observation_never_regresses t spec l o b {changes} h =
    elim (observation_changes-Sighted t spec l o b h).workload [
      | inl e ↦
          subst (λ s. rank_or_4 (rank l.workload_state) ≤ rank_or_4 (rank s)) (sym e) (le_refl _)
      | inr (e, n) ↦
          subst (λ s. rank_or_4 (rank l.workload_state) ≤ rank_or_4 (rank s)) (sym e)
            (outranks-le l.workload_state (rank o.state) n)
    ]

-- The hand-off stays the one that was bound, and what was proved of it stays proved.
pub record SameBinding (h h' : CatalogArtifactHandoffEvidence) : Type 0 where
  pub attempt_id : h'.attempt_id ≡ h.attempt_id
  pub request_sha256 : h'.request_sha256 ≡ h.request_sha256
  pub result_sha256 : h'.result_sha256 ≡ h.result_sha256
  pub receipt_sha256 : h'.receipt_sha256 ≡ h.receipt_sha256
  pub acknowledgement_sha256 : h'.acknowledgement_sha256 ≡ h.acknowledgement_sha256
  pub acknowledgement_payload_sha256 :
      h'.acknowledgement_payload_sha256 ≡ h.acknowledgement_payload_sha256
  pub host_confirmation_declared_at :
      h'.host_confirmation_declared_at ≡ h.host_confirmation_declared_at
  pub remote_ack_observed_at :
      (at : ℕ) → h.remote_ack_observed_at ≡ some at → h'.remote_ack_observed_at ≡ some at

SameBinding-refl : (h : CatalogArtifactHandoffEvidence) → SameBinding h h
SameBinding-refl h = record {
  attempt_id = refl;
  request_sha256 = refl;
  result_sha256 = refl;
  receipt_sha256 = refl;
  acknowledgement_sha256 = refl;
  acknowledgement_payload_sha256 = refl;
  host_confirmation_declared_at = refl;
  remote_ack_observed_at = λ at e. e;
}

Bindings : Option CatalogArtifactHandoffEvidence → Option CatalogArtifactHandoffEvidence → Type 0
Bindings none h' = Unit
Bindings (some h) none = ⊥
Bindings (some h) (some h') = SameBinding h h'

Handed-Bindings :
    {t : ℕ} {ack : Option String} {h h' : Option CatalogArtifactHandoffEvidence}
    → Handed t ack h h'
    → Bindings h h'
unfolding Bindings
Handed-Bindings (kept none) = tt
Handed-Bindings (kept (some h)) = SameBinding-refl h
Handed-Bindings (bound h e) = tt
Handed-Bindings (proved h i e) = record {
  attempt_id = refl;
  request_sha256 = refl;
  result_sha256 = refl;
  receipt_sha256 = refl;
  acknowledgement_sha256 = refl;
  acknowledgement_payload_sha256 = refl;
  host_confirmation_declared_at = refl;
  remote_ack_observed_at = λ at e'. rw e' refl;
}

-- A hand-off that is on record is never rewritten by an observation: its digests, the intent of the
-- host and the confirmation stay, and the instant of a proved acknowledgement does.
pub observation_keeps_handoff :
    (t : ℕ) (spec : PodCapacitySpec) (l : TrainingPodLease) (o : WorkloadObservation)
    (submitted : Bool) {changes : List Change × List (Phase × ℕ)}
    {h : CatalogArtifactHandoffEvidence}
    → observation_changes t spec l o submitted ≡ ok changes
    → l.artifact_handoff ≡ some h
    → (h' : CatalogArtifactHandoffEvidence) × ((assign_all changes.0 l).artifact_handoff ≡ some h')
      × SameBinding h h'
unfolding Bindings
observation_keeps_handoff t spec l o b {changes} {h} e stored =
    go (assign_all changes.0 l).artifact_handoff (
      subst (λ s. Bindings s (assign_all changes.0 l).artifact_handoff) stored
        (Handed-Bindings (observation_changes-Sighted t spec l o b e).handed))
  where
    go :
        (r : Option CatalogArtifactHandoffEvidence)
        → Bindings (some h) r
        → (h' : CatalogArtifactHandoffEvidence) × (r ≡ some h') × SameBinding h h'
    go none x = absurd x
    go (some h') x = (h', refl, x)

-- What a proved acknowledgement rests on: it was proved before, or the host's intent is on record and
-- is the acknowledgement that was observed.
Backed :
    ℕ
    → Option String
    → Option CatalogArtifactHandoffEvidence
    → Option CatalogArtifactHandoffEvidence
    → Type 0
Backed t ack h none = Unit
Backed t ack none (some h') = h'.remote_ack_observed_at ≡ none
Backed t ack (some h) (some h') =
    (h'.remote_ack_observed_at ≡ h.remote_ack_observed_at)
    ⊎ ((is_none h.acknowledgement_sha256 ≡ false) × (h.acknowledgement_sha256 ≡ ack))

Handed-Backed :
    {t : ℕ} {ack : Option String} {h h' : Option CatalogArtifactHandoffEvidence}
    → Handed t ack h h'
    → Backed t ack h h'
unfolding Backed
Handed-Backed (kept none) = tt
Handed-Backed (kept (some h)) = inl refl
Handed-Backed (bound h e) = e
Handed-Backed (proved h i e) = inr (i, e)

-- A remote acknowledgement is recorded only for an intent of the host that is on record: if an
-- observation leaves a proved acknowledgement where none was proved, then the digest of the host's
-- acknowledgement was stored before it, and it is the one that was observed.
pub acknowledgement_needs_intent :
    (t : ℕ) (spec : PodCapacitySpec) (l : TrainingPodLease) (o : WorkloadObservation)
    (submitted : Bool) {changes : List Change × List (Phase × ℕ)}
    {h' : CatalogArtifactHandoffEvidence} {at : ℕ}
    → observation_changes t spec l o submitted ≡ ok changes
    → (assign_all changes.0 l).artifact_handoff ≡ some h'
    → h'.remote_ack_observed_at ≡ some at
    → (h : CatalogArtifactHandoffEvidence) × (l.artifact_handoff ≡ some h)
      × ((h.remote_ack_observed_at ≡ some at)
          ⊎ ((is_none h.acknowledgement_sha256 ≡ false)
              × (h.acknowledgement_sha256 ≡ o.acknowledgement_sha256)))
unfolding Backed
acknowledgement_needs_intent t spec l o b {changes} {h'} {at} e written observed =
    go l.artifact_handoff (
      subst (Backed t o.acknowledgement_sha256 l.artifact_handoff) written
        (Handed-Backed (observation_changes-Sighted t spec l o b e).handed))
  where
    go :
        (s : Option CatalogArtifactHandoffEvidence)
        → Backed t o.acknowledgement_sha256 s (some h')
        → (h : CatalogArtifactHandoffEvidence) × (s ≡ some h)
          × ((h.remote_ack_observed_at ≡ some at)
              ⊎ ((is_none h.acknowledgement_sha256 ≡ false)
                  × (h.acknowledgement_sha256 ≡ o.acknowledgement_sha256)))
    go none x = cc
    go (some h) (inl same) = (h, refl, inl (sym same ∙ observed))
    go (some h) (inr intended) = (h, refl, inr intended)

-- What a binding says: the test held, and the evidence has the acknowledgement.
record Binding (h : CatalogArtifactHandoffEvidence) (a : Acknowledgement)
    (bound : CatalogArtifactHandoffEvidence) : Type 0 where
  pub test : binds h a ≡ true
  pub acknowledgement_sha256 : bound.acknowledgement_sha256 ≡ a.acknowledgement_sha256
  pub payload_sha256 : bound.acknowledgement_payload_sha256 ≡ some a.payload_sha256

bind_acknowledgement-Binding :
    (h : CatalogArtifactHandoffEvidence) (a : Acknowledgement)
    {bound : CatalogArtifactHandoffEvidence}
    → bind_acknowledgement h a ≡ some bound
    → Binding h a bound
unfolding bind_acknowledgement
bind_acknowledgement-Binding h a {bound} e = elim (Bool-cases (binds h a)) [
  | inr n ↦ cc (rw n at e)
  | inl y ↦
      let intended : CatalogArtifactHandoffEvidence = record h {
        acknowledgement_sha256 = a.acknowledgement_sha256;
        acknowledgement_payload_sha256 = some a.payload_sha256;
      } in
      let chosen : some intended ≡ some bound = rw y at e in
      let same : intended ≡ bound = cc in
      subst (Binding h a) same
        (record { test = y; acknowledgement_sha256 = refl; payload_sha256 = refl })
]

-- An acknowledgement is bound once: evidence that has one binds no other, neither with another digest
-- nor with another payload, and keeps the digest it has.
pub bind_acknowledgement_once :
    (h : CatalogArtifactHandoffEvidence) (a b : Acknowledgement)
    {bound again : CatalogArtifactHandoffEvidence}
    → bind_acknowledgement h a ≡ some bound
    → bind_acknowledgement bound b ≡ some again
    → (b.acknowledgement_sha256 ≡ a.acknowledgement_sha256)
      × (b.payload_sha256 ≡ a.payload_sha256)
      × (again.acknowledgement_sha256 ≡ bound.acknowledgement_sha256)
bind_acknowledgement_once h a b {bound} {again} e f =
    let first : Binding h a bound = bind_acknowledgement-Binding h a e in
    let second : Binding bound b again = bind_acknowledgement-Binding bound b f in
    let given : is_none a.acknowledgement_sha256 ≡ false = ground (arith, first.test) in
    let stored : is_none bound.acknowledgement_sha256 ≡ false =
      rw first.acknowledgement_sha256 given in
    let same : opt_str_eq b.acknowledgement_sha256 bound.acknowledgement_sha256 ≡ true =
      ground (arith, second.test, stored) in
    let payload : opt_str_eq (some b.payload_sha256) bound.acknowledgement_payload_sha256 ≡ true =
      ground (arith, second.test, stored) in
    let digest : b.acknowledgement_sha256 ≡ bound.acknowledgement_sha256 =
      opt_str_eq_sound _ _ same in
    let paid : some b.payload_sha256 ≡ bound.acknowledgement_payload_sha256 =
      opt_str_eq_sound _ _ payload in
    (
      digest ∙ first.acknowledgement_sha256,
      cc (paid ∙ first.payload_sha256),
      second.acknowledgement_sha256 ∙ digest,
    )
