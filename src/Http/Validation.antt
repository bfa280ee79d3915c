-- ===== src/Http/Validation.antt =====
-- What src/http/conversations-router.ts lets through to the core.
use jiffy_messaging.Base.{
  ℕ, ◌≤◌, ◌<◌, ◌≡◌, refl, String, true, Option, none, some, List, [], ◌∷◌, map, ap, ◌∙◌,
  Option-cases, arith, length, ◌⊎◌, inl, inr, leb, Bool-cases,
}
use jiffy_messaging.Domain.{Instant}
use jiffy_messaging.Core.{MessagingService, create_conversation, list_messages}
use jiffy_messaging.Http.Responses.{
  reply, respond, to_conversation_response, conversation_json, messages_json,
}
use jiffy_messaging.Http.Router.{
  JsonField, JsNumber, natural, not_natural, post_conversation, get_messages, texts_of, all_texts,
  includes, text, array, something_else, checked_limit, checked_before, handle,
}

-- The requests that the document of the endpoint allows: an array of strings, fifty at most, and the
-- user's own id among them.
abbrev pub IsAllowed : String → JsonField → List String → Type 0
IsAllowed user_id participant_ids ids =
    (participant_ids ≡ array (map some ids)) × (length ids ≤ 50) × (includes ids user_id ≡ true)

-- No limit, or a positive natural number.
abbrev pub IsLimit : Option JsNumber → Option ℕ → Type 0
IsLimit none n = n ≡ none
IsLimit (some (natural k)) n = (0 < k) × (n ≡ some k)
IsLimit (some not_natural) n = ⊥

-- No date, or a valid one.
abbrev pub IsDate : Option (Option Instant) → Option Instant → Type 0
IsDate none at = at ≡ none
IsDate (some none) at = ⊥
IsDate (some (some d)) at = at ≡ some d

all_texts-eq-some :
    (ts : List (Option String)) (ids : List String) → all_texts ts ≡ some ids → ts ≡ map some ids
unfolding all_texts
all_texts-eq-some [] ids h = let e : [] ≡ ids = ground arith in rw (← e) refl
all_texts-eq-some (none ∷ ts) ids h = absurd (ground arith)
all_texts-eq-some (some t ∷ ts) ids h = elim (Option-cases (all_texts ts)) [
  | inl nothing ↦ absurd (ground arith)
  | inr (rest, there) ↦
      let e : t ∷ rest ≡ ids = ground arith in
      rw (← e) (ap (◌∷◌ (some t)) (all_texts-eq-some ts rest there))
]

all_texts-map-some : (ids : List String) → all_texts (map some ids) ≡ some ids
unfolding all_texts
all_texts-map-some [] = refl
all_texts-map-some (t ∷ ts) = rw (all_texts-map-some ts) refl

texts_of-eq-some :
    (f : JsonField) (ids : List String) → texts_of f ≡ some ids → f ≡ array (map some ids)
unfolding texts_of
texts_of-eq-some (array ts) ids h = ap array (all_texts-eq-some ts ids h)
texts_of-eq-some (text t) ids h = absurd (ground arith)
texts_of-eq-some something_else ids h = absurd (ground arith)

texts_of-array :
    (f : JsonField) (ids : List String) → f ≡ array (map some ids) → texts_of f ≡ some ids
unfolding texts_of
texts_of-array f ids e = ap texts_of e ∙ all_texts-map-some ids

module _ {S : Type 0} (service : MessagingService S) (count_published : S → S)
    (user_id : String) where
  abbrev pub CallsCore : (participant_ids : JsonField) → S → Type 0
  CallsCore participant_ids s =
      (ids : List String) × IsAllowed user_id participant_ids ids
      × (handle service count_published user_id (post_conversation participant_ids) s
          ≡ respond (λ c. reply 201 (conversation_json (to_conversation_response c)))
              (create_conversation service user_id ids s))

  abbrev pub IsTurnedDown : (participant_ids : JsonField) → S → Type 0
  IsTurnedDown participant_ids s =
      ((ids : List String) → ¬ IsAllowed user_id participant_ids ids)
      × ((handle service count_published user_id (post_conversation participant_ids) s).1 ≡ s)
      × (((handle service count_published user_id (post_conversation participant_ids) s).0.status
            ≡ 400)
          ⊎ ((handle service count_published user_id (post_conversation participant_ids) s).0.status
              ≡ 403))

  post_checked-cases :
      (o : Option (List String)) (participant_ids : JsonField) (s : S)
      → texts_of participant_ids ≡ o
      → CallsCore participant_ids s ⊎ IsTurnedDown participant_ids s
  unfolding handle
  post_checked-cases none participant_ids s h = inr (
    λ ids (same, few, inside). ground (arith, texts_of-array participant_ids ids same),
    ground arith,
    ground arith,
  )
  post_checked-cases (some ids) participant_ids s h = elim (Bool-cases (leb (length ids) 50)) [
    | inr many ↦ inr (
      λ others (same, few, inside).
          let e : ids ≡ others = ground (arith, texts_of-array participant_ids others same) in
          ground (arith, ap length e),
      ground arith,
      ground arith,
    )
    | inl few ↦ elim (Bool-cases (includes ids user_id)) [
      | inr outside ↦ inr (
        λ others (same, few, inside).
            let e : ids ≡ others = ground (arith, texts_of-array participant_ids others same) in
            ground (arith, ap (λ ids. includes ids user_id) e),
        ground arith,
        ground arith,
      )
      | inl inside ↦
          inl (ids, (texts_of-eq-some participant_ids ids h, ground arith, inside), ground arith)
    ]
  ]

  -- Either the request has an array of at most fifty participants, all of them strings and the user
  -- among them, and then the core is asked for a conversation of just these; or it has no such
  -- array, the core is not asked, nothing changes, and the answer is 400 or 403.
  pub post_conversation-checked :
      (participant_ids : JsonField) (s : S)
      → CallsCore participant_ids s ⊎ IsTurnedDown participant_ids s
  post_conversation-checked participant_ids s =
      post_checked-cases (texts_of participant_ids) participant_ids s refl

  -- Either the limit, if one is given, is a positive natural number and the date, if one is given, is
  -- valid, and then the core lists with just these two options; or one of them is given and is not
  -- so, the core is not asked, nothing changes, and the answer is 400.
  pub get_messages-checked :
      (id : String) (limit : Option JsNumber) (before : Option (Option Instant)) (s : S)
      → ((n : Option ℕ) × (at : Option Instant) × IsLimit limit n
          × IsDate before at
          × (handle service count_published user_id (get_messages id limit before) s
              ≡ respond
                  (λ ms. reply 200 (messages_json ms))
                  (list_messages service id user_id
                    (record { limit = n; before = at; after = none })
                    s)))
        ⊎ (((limit ≡ some not_natural) ⊎ (limit ≡ some (natural 0)) ⊎ (before ≡ some none))
            × ((handle service count_published user_id (get_messages id limit before) s).1 ≡ s)
            × ((handle service count_published user_id (get_messages id limit before) s).0.status
                ≡ 400))
  unfolding handle checked_limit checked_before
  get_messages-checked id none none s = inl (none, none, refl, refl, refl)
  get_messages-checked id none (some none) s = inr (inr (inr refl), refl, refl)
  get_messages-checked id none (some (some at)) s = inl (none, some at, refl, refl, refl)
  get_messages-checked id (some not_natural) before s = inr (inl refl, refl, refl)
  get_messages-checked id (some (natural n)) none s = elim (Bool-cases (leb n 0)) [
    | inl zero_limit ↦ inr (inr (inl (ground arith)), ground arith, ground arith)
    | inr positive ↦ inl (some n, none, (ground arith, refl), refl, ground arith)
  ]
  get_messages-checked id (some (natural n)) (some none) s =
      inr (inr (inr refl), ground arith, ground arith)
  get_messages-checked id (some (natural n)) (some (some at)) s = elim (Bool-cases (leb n 0)) [
    | inl zero_limit ↦ inr (inr (inl (ground arith)), ground arith, ground arith)
    | inr positive ↦ inl (some n, some at, (ground arith, refl), refl, ground arith)
  ]
