-- ===== src/Domain/Lifecycle.antt =====
-- The transition diagrams of internal/domain/whisper.go and internal/domain/draft.go as relations.
use secretmediabot.Base.{true, ◌≡◌, refl, ◌↔◌, ◌⊎◌, arith}
use secretmediabot.Domain.Status.{
  WhisperStatus, active, opening, opened, expired, revoked, can_transition_status, PublishState,
  published, can_transition_publish, DraftState, awaiting_media, ingesting_media, completed,
  cancelled, can_transition_draft,
}

-- The legal edges of a whisper's status, drawn one by one.
infix 40 ◌⟶◌ ◌⟶*◌
pub data ◌⟶◌ : WhisperStatus → WhisperStatus → Type 0 where
  reserve : active ⟶ opening
  lapse : active ⟶ expired
  withdraw : active ⟶ revoked
  release : opening ⟶ active
  deliver : opening ⟶ opened
  lapse_opening : opening ⟶ expired
  withdraw_opening : opening ⟶ revoked

pub data ◌⟶*◌ : WhisperStatus → WhisperStatus → Type 0 where
  here : {s : WhisperStatus} → s ⟶* s
  step : {s t u : WhisperStatus} → s ⟶ t → t ⟶* u → s ⟶* u

pub ruleset status_rules =
    (reserve, lapse, withdraw, release, deliver, lapse_opening, withdraw_opening)

⟶-can_transition : {s t : WhisperStatus} → s ⟶ t → can_transition_status s t ≡ true
unfolding can_transition_status
⟶-can_transition reserve = refl
⟶-can_transition lapse = refl
⟶-can_transition withdraw = refl
⟶-can_transition release = refl
⟶-can_transition deliver = refl
⟶-can_transition lapse_opening = refl
⟶-can_transition withdraw_opening = refl

can_transition-⟶ : (s t : WhisperStatus) → can_transition_status s t ≡ true → s ⟶ t
unfolding can_transition_status
can_transition-⟶ s t h = grind (arith, status_rules)

-- `WhisperStatus.CanTransitionTo` answers true exactly on the seven edges of the diagram.
pub can_transition_status_iff : (s t : WhisperStatus) → (can_transition_status s t ≡ true) ↔ (s ⟶ t)
can_transition_status_iff s t = (can_transition-⟶ s t, ⟶-can_transition)

-- A status from which no edge leaves.
abbrev pub IsTerminal : WhisperStatus → Type 0
IsTerminal s = (s ≡ opened) ⊎ (s ≡ expired) ⊎ (s ≡ revoked)

terminal-no_edge : {s t : WhisperStatus} → s ⟶ t → IsTerminal s → ⊥
terminal-no_edge reserve h = ground arith
terminal-no_edge lapse h = ground arith
terminal-no_edge withdraw h = ground arith
terminal-no_edge release h = ground arith
terminal-no_edge deliver h = ground arith
terminal-no_edge lapse_opening h = ground arith
terminal-no_edge withdraw_opening h = ground arith

-- No chain of legal transitions leaves an opened, expired or revoked status.
pub ⟶*-IsTerminal : {s t : WhisperStatus} → s ⟶* t → IsTerminal s → t ≡ s
⟶*-IsTerminal here h = refl
⟶*-IsTerminal (step e r) h = absurd (terminal-no_edge e h)

-- The legal edges of a draft's state.
infix 40 ◌⇒◌
pub data ◌⇒◌ : DraftState → DraftState → Type 0 where
  claim : awaiting_media ⇒ ingesting_media
  cancel : awaiting_media ⇒ cancelled
  lapse : awaiting_media ⇒ DraftState.expired
  give_back : ingesting_media ⇒ awaiting_media
  finish : ingesting_media ⇒ completed
  cancel_ingest : ingesting_media ⇒ cancelled
  lapse_ingest : ingesting_media ⇒ DraftState.expired

ruleset draft_rules = (claim, cancel, ◌⇒◌.lapse, give_back, finish, cancel_ingest, lapse_ingest)

⇒-can_transition : {s t : DraftState} → s ⇒ t → can_transition_draft s t ≡ true
unfolding can_transition_draft
⇒-can_transition claim = refl
⇒-can_transition cancel = refl
⇒-can_transition ◌⇒◌.lapse = refl
⇒-can_transition give_back = refl
⇒-can_transition finish = refl
⇒-can_transition cancel_ingest = refl
⇒-can_transition lapse_ingest = refl

can_transition-⇒ : (s t : DraftState) → can_transition_draft s t ≡ true → s ⇒ t
unfolding can_transition_draft
can_transition-⇒ s t h = grind (arith, draft_rules)

-- `DraftState.CanTransitionTo` answers true exactly on the seven edges of its diagram.
pub can_transition_draft_iff : (s t : DraftState) → (can_transition_draft s t ≡ true) ↔ (s ⇒ t)
can_transition_draft_iff s t = (can_transition-⇒ s t, ⇒-can_transition)

-- Publication: what a chain of legal transitions can still reach.
pub data PublishPath : PublishState → PublishState → Type 0 where
  here : {s : PublishState} → PublishPath s s
  step :
      {s t u : PublishState} → can_transition_publish s t ≡ true → PublishPath t u → PublishPath s u

published-no_edge : (t : PublishState) → can_transition_publish published t ≡ true → ⊥
unfolding can_transition_publish
published-no_edge t h = ground arith

-- A published envelope stays published along every chain of legal transitions.
pub published_final : {s t : PublishState} → PublishPath s t → s ≡ published → t ≡ published
published_final PublishPath.here e = e
published_final (PublishPath.step {s = s} {t = t} h r) e = absurd (published-no_edge t (rw e at h))
