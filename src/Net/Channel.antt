-- ===== src/Net/Channel.antt =====
-- What an endpoint promises of its sending, apart from deques and posted lambdas: a channel that is
-- given chunks by its user and gives them to `async_write`, one at a time, in order, until one fails.
use sephi.Base.{
  ◌≡◌, inl, inr, Option-cases, List, [], ◌∷◌, ◌++◌, tail, Bool, true, false, Option, none, some,
  refl, ◌∙◌, ap, foldl, outputs, append-nil, append_assoc, arith,
}
use sephi.Net.Types.{Chunk}
use sephi.Net.SendLoop.{OneWrite, SendLoop}

-- No write is under way; one is; one has failed, and nothing is written any more.
pub data Phase : Type 0 where
  idle busy dead : Phase

-- `given` are the chunks given to `async_write`, `pending` those accepted and not yet given.
pub record Channel : Type 0 where
  pub given : List Chunk
  pub pending : List Chunk
  pub phase : Phase

pub data Action : Type 0 where
  accepts : Chunk → Action
  gives finishes fails : Action

-- `none`: the channel does not allow it.
abbrev pub act : Action → Channel → Option Channel
act (accepts chunk) ch = some (record ch { pending = ch.pending ++ chunk ∷ [] })
act gives ch = elim ch.phase [
  | idle ↦ elim ch.pending [
    | [] ↦ none
    | chunk ∷ rest ↦ some (record { given = ch.given ++ chunk ∷ []; pending = rest; phase = busy })
  ]
  | busy ↦ none
  | dead ↦ none
]
act finishes ch = elim ch.phase [ busy ↦ some (record ch { phase = idle }) | _ ↦ none ]
act fails ch = elim ch.phase [ busy ↦ some (record ch { phase = dead }) | _ ↦ none ]

abbrev pub act_all : List Action → Channel → Option Channel
act_all [] ch = some ch
act_all (a ∷ as') ch = elim (act a ch) [ none ↦ none | some ch' ↦ act_all as' ch' ]

abbrev pub accepted_by : List Action → List Chunk
accepted_by [] = []
accepted_by (accepts chunk ∷ as') = chunk ∷ accepted_by as'
accepted_by (_ ∷ as') = accepted_by as'

-- The ends of writes: whether each is a failure.
abbrev pub ended_by : List Action → List Bool
ended_by [] = []
ended_by (finishes ∷ as') = false ∷ ended_by as'
ended_by (fails ∷ as') = true ∷ ended_by as'
ended_by (_ ∷ as') = ended_by as'

pub act_all-append :
    (as' bs : List Action) (ch ch' : Channel)
    → act_all as' ch ≡ some ch'
    → act_all (as' ++ bs) ch ≡ act_all bs ch'
act_all-append [] bs ch ch' h = ground (arith, h)
act_all-append (a ∷ as') bs ch ch' h =
    elim (act a ch)
        as (λ r.
          (elim r as (λ _. Option Channel) [ none ↦ none | some c ↦ act_all as' c ]) ≡ some ch'
          → (elim r as (λ _. Option Channel) [ none ↦ none | some c ↦ act_all (as' ++ bs) c ])
            ≡ act_all bs ch') [
              | none ↦ λ e. ground (arith, e)
              | some c ↦ λ e. act_all-append as' bs c ch' e
            ]
      h

pub accepted_by-append :
    (as' bs : List Action) → accepted_by (as' ++ bs) ≡ accepted_by as' ++ accepted_by bs
accepted_by-append [] bs = refl
accepted_by-append (accepts c ∷ as') bs = ap (◌∷◌ c) (accepted_by-append as' bs)
accepted_by-append (gives ∷ as') bs = accepted_by-append as' bs
accepted_by-append (finishes ∷ as') bs = accepted_by-append as' bs
accepted_by-append (fails ∷ as') bs = accepted_by-append as' bs

ended_by-append : (as' bs : List Action) → ended_by (as' ++ bs) ≡ ended_by as' ++ ended_by bs
ended_by-append [] bs = refl
ended_by-append (accepts c ∷ as') bs = ended_by-append as' bs
ended_by-append (gives ∷ as') bs = ended_by-append as' bs
ended_by-append (finishes ∷ as') bs = ap (◌∷◌ false) (ended_by-append as' bs)
ended_by-append (fails ∷ as') bs = ap (◌∷◌ true) (ended_by-append as' bs)

-- What the actions of a channel keep: order and number.
act-flow :
    (a : Action) (ch ch' : Channel)
    → act a ch ≡ some ch'
    → ch'.given ++ ch'.pending ≡ (ch.given ++ ch.pending) ++ accepted_by (a ∷ [])
act-flow (accepts c) ch ch' h = ground (arith, append_assoc ch.given ch.pending (c ∷ []))
act-flow gives ch ch' h = gives-flow ch ch.pending ch' refl h
  where
    gives-flow :
        (ch : Channel) (cs : List Chunk) (ch' : Channel)
        → ch.pending ≡ cs
        → act gives ch ≡ some ch'
        → ch'.given ++ ch'.pending ≡ (ch.given ++ ch.pending) ++ []
    gives-flow ch [] ch' e h = ground arith
    gives-flow ch (c ∷ cs) ch' e h =
        ground (arith, append_assoc ch.given (c ∷ []) cs, append-nil (ch.given ++ c ∷ cs))
act-flow finishes ch ch' h = ground (arith, append-nil (ch.given ++ ch.pending))
act-flow fails ch ch' h = ground (arith, append-nil (ch.given ++ ch.pending))

-- What has been given stays given.
pub act-given :
    (a : Action) (ch ch' : Channel)
    → act a ch ≡ some ch'
    → (more : List Chunk) × (ch'.given ≡ ch.given ++ more)
act-given (accepts c) ch ch' h = ([], ground (arith, append-nil ch.given))
act-given gives ch ch' h = gives-given ch ch.pending ch' refl h
  where
    gives-given :
        (ch : Channel) (cs : List Chunk) (ch' : Channel)
        → ch.pending ≡ cs
        → act gives ch ≡ some ch'
        → (more : List Chunk) × (ch'.given ≡ ch.given ++ more)
    gives-given ch [] ch' e h = ([], ground arith)
    gives-given ch (c ∷ cs) ch' e h = (c ∷ [], ground arith)
act-given finishes ch ch' h = ([], ground (arith, append-nil ch.given))
act-given fails ch ch' h = ([], ground (arith, append-nil ch.given))

pub act_all-given :
    (as' : List Action) (ch ch' : Channel)
    → act_all as' ch ≡ some ch'
    → (more : List Chunk) × (ch'.given ≡ ch.given ++ more)
act_all-given [] ch ch' h = ([], ground (arith, append-nil ch.given))
act_all-given (a ∷ as') ch ch' h = elim (Option-cases (act a ch)) [
  | inl e ↦ ([], absurd (ground (arith, h, e)))
  | inr (ch1, e) ↦
      let (more, g) = act-given a ch ch1 e in
      let (more', g') = act_all-given as' ch1 ch' (ground (arith, h, e)) in
      (more ++ more', g' ∙ (ap (λ xs. xs ++ more') g ∙ append_assoc ch.given more more'))
]

abbrev pub phase_of : List Chunk → List Chunk → Phase
phase_of (_ ∷ _) sending = busy
phase_of [] [] = idle
phase_of [] (_ ∷ _) = dead

abbrev pub new_channel : Channel
new_channel = record { given = []; pending = []; phase = idle }

-- The end of a write, with the chunks behind the front.
abbrev pub finish : List Chunk → Bool → List Action
finish behind true = fails ∷ []
finish [] false = finishes ∷ []
finish (_ ∷ _) false = finishes ∷ gives ∷ []

pub ended_by-finish : (behind : List Chunk) (b : Bool) → ended_by (finish behind b) ≡ b ∷ []
ended_by-finish behind true = refl
ended_by-finish [] false = refl
ended_by-finish (_ ∷ _) false = refl

-- What an endpoint is, seen as a channel.
abbrev pub channel : List Chunk → List Chunk → List Chunk → List Chunk → Channel
channel written writing sending waiting = record {
  given = written;
  pending = tail sending ++ waiting;
  phase = phase_of writing sending;
}

module _ {S I : Type 0} (l : SendLoop S I) where
  open l use {step, sending, writing, written, waiting, accepted, keeps}

  abbrev pub channel_of : S → Channel
  channel_of s = channel (written s) (writing s) (sending s) (waiting s)

  -- Each step of the endpoint is some actions of the channel.
  pub record Refines : Type 0 where
    pub actions : S → I → List Action
    -- Whether the write that the input ends, if it ends one, has failed.
    pub ended : S → I → List Bool
    pub follows :
        (s : S) (i : I)
        → OneWrite (writing s) (sending s)
        → act_all (actions s i) (channel_of s) ≡ some (channel_of (step s i))
    pub accepts-accepted : (s : S) (i : I) → accepted_by (actions s i) ≡ accepted s i
    pub ends-ended : (s : S) (i : I) → ended_by (actions s i) ≡ ended s i

  module _ (r : Refines) where
    open r use {actions, ended, follows, accepts-accepted, ends-ended}

    pub run_follows :
        (s : S) (is : List I)
        → OneWrite (writing s) (sending s)
        → (act_all (outputs step actions s is) (channel_of s) ≡ some (channel_of (foldl step s is)))
          × (accepted_by (outputs step actions s is) ≡ outputs step accepted s is)
          × (ended_by (outputs step actions s is) ≡ outputs step ended s is)
    unfolding outputs
    run_follows s [] h = (refl, refl, refl)
    run_follows s (i ∷ is) h =
        let (e, a, b) = run_follows (step s i) is (keeps s i h) in
        (
          act_all-append (actions s i) (outputs step actions (step s i) is) (channel_of s)
                (channel_of (step s i)) (follows s i h)
              ∙ e,
          accepted_by-append (actions s i) (outputs step actions (step s i) is)
              ∙ rw (accepts-accepted s i, a) refl,
          ended_by-append (actions s i) (outputs step actions (step s i) is)
              ∙ rw (ends-ended s i, b) refl,
        )
