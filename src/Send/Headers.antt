-- ===== src/Send/Headers.antt =====
-- Which headers a request has.
use mathlib.Core.Option.{some_inj}
use shared_ts_libs.Base.{
  insert, Option-cases, inl, inr, str_eq-cases, sym, ap, ◌∙◌, eq_refl, ◌≢◌, Bool, true, false, ◌≡◌,
  refl, arith, Option, none, some, String, Dict, lookup, lookup-insert, str_eq, if◌then◌else◌,
  eq_iff, ◌&&◌,
}
use shared_ts_libs.Send.Request.{
  Sent, resolves, rejects, custom_accept, request_headers, with_request_id, with_content_type,
  with_accept, accepting, set_unless_there,
}

-- What a request has under a name that its caller has left out.
abbrev pub added_header : Option String → Option String → String → Option String
added_header none none name = none
added_header none (some text) name =
    if str_eq "content-type" name then some "application/json" else none
added_header (some id) none name = if str_eq "x-request-id" name then some id else none
added_header (some id) (some text) name =
    if str_eq "x-request-id" name
    then some id
    else if str_eq "content-type" name
    then some "application/json"
    else none

abbrev pub or_else : Option String → Option String → Option String
or_else none o = o
or_else (some v) o = some v

or_else_assoc : (a b c : Option String) → or_else (or_else a b) c ≡ or_else a (or_else b c)
or_else_assoc none b c = refl
or_else_assoc (some v) b c = refl

or_else-none : (o : Option String) → or_else o none ≡ o
or_else-none none = refl
or_else-none (some v) = refl

lookup-set_unless_there :
    (name k v : String) (h : Dict String)
    → lookup k (set_unless_there name v h)
      ≡ or_else (lookup k h) (if str_eq name k then some v else none)
lookup-set_unless_there name k v h = elim (Option-cases (lookup name h)) [
  | inl missing ↦
      rw (missing, set_unless_there)
        (lookup-insert name k v h ∙ elim (str_eq-cases name k) [
          | inl same ↦ rw (← same) (rw (missing, eq_refl name) refl)
          | inr other ↦ rw other (sym (or_else-none (lookup k h)))
        ])
  | inr (w, found) ↦
      rw (found, set_unless_there)
        (elim (str_eq-cases name k) [
          | inl same ↦ rw (← same) (rw found refl)
          | inr other ↦ rw other (sym (or_else-none (lookup k h)))
        ])
]

with_request_id-lookup :
    (id : Option String) (name : String) (h : Dict String)
    → lookup name (with_request_id id h) ≡ or_else (lookup name h) (added_header id none name)
unfolding with_request_id
with_request_id-lookup none name h = sym (or_else-none (lookup name h))
with_request_id-lookup (some id) name h = lookup-set_unless_there "x-request-id" name id h

with_content_type-lookup :
    (body : Option String) (name : String) (h : Dict String)
    → lookup name (with_content_type body h) ≡ or_else (lookup name h) (added_header none body name)
unfolding with_content_type
with_content_type-lookup none name h = sym (or_else-none (lookup name h))
with_content_type-lookup (some text) name h =
    lookup-set_unless_there "content-type" name "application/json" h

added_header-or_else :
    (id body : Option String) (name : String)
    → or_else (added_header id none name) (added_header none body name) ≡ added_header id body name
added_header-or_else none body name = refl
added_header-or_else (some id) none name = or_else-none _
added_header-or_else (some id) (some text) name = ground arith

added-lookup :
    (id body : Option String) (name : String) (user : Dict String)
    → lookup name (with_content_type body (with_request_id id user))
      ≡ or_else (lookup name user) (added_header id body name)
added-lookup id body name user =
    with_content_type-lookup body name (with_request_id id user)
    ∙ rw (with_request_id-lookup id name user) (
        or_else_assoc (lookup name user) (added_header id none name) (added_header none body name)
        ∙ ap (or_else (lookup name user)) (added_header-or_else id body name))

added-accept :
    (id body : Option String) (user : Dict String)
    → lookup "accept" (with_content_type body (with_request_id id user)) ≡ lookup "accept" user
added-accept none none user = added-lookup none none "accept" user ∙ or_else-none _
added-accept none (some text) user = added-lookup none (some text) "accept" user ∙ or_else-none _
added-accept (some id) none user = added-lookup (some id) none "accept" user ∙ or_else-none _
added-accept (some id) (some text) user =
    added-lookup (some id) (some text) "accept" user ∙ or_else-none _

-- An `Accept` header that a stream of events leaves no room for.
abbrev pub IsCustom : String → Type 0
IsCustom accept = (accept ≢ "") × (accept ≢ "text/event-stream")

module _ (use_streaming : Bool) (request_id body : Option String) (user : Dict String) where
  abbrev pub AreHeaders : Sent (Dict String) → Type 0
  AreHeaders (resolves h) =
      ((name : String)
        → lookup name h ≡ (
            if use_streaming && str_eq "accept" name
            then some "text/event-stream"
            else or_else (lookup name user) (added_header request_id body name)))
      × (use_streaming ≡ true → (a : String) → lookup "accept" user ≡ some a → ¬ IsCustom a)
  AreHeaders (rejects e) =
      (use_streaming ≡ true)
      × (a : String) × (lookup "accept" user ≡ some a)
      × IsCustom a
      × (e ≡ custom_accept a)

module _ (request_id body : Option String) (user : Dict String) where
  accepted-lookup :
      (name : String)
      → lookup name (
          insert "accept" "text/event-stream"
            (with_content_type body (with_request_id request_id user)))
        ≡ (if str_eq "accept" name
            then some "text/event-stream"
            else or_else (lookup name user) (added_header request_id body name))
  accepted-lookup name =
      lookup-insert "accept" name "text/event-stream"
        (with_content_type body (with_request_id request_id user))
      ∙ rw (added-lookup request_id body name user) refl

  accepting-AreHeaders :
      (existing : Option String)
      → lookup "accept" user ≡ existing
      → AreHeaders true request_id body user
          (accepting existing (with_content_type body (with_request_id request_id user)))
  unfolding accepting
  accepting-AreHeaders none e = (accepted-lookup, λ _ a f c. absurd (ground (arith, f, e)))
  accepting-AreHeaders (some a) e = elim (str_eq-cases a "") [
    | inl empty ↦
        rw (empty, accepting) (accepted-lookup, λ _ a' f c. c.0 (some_inj.0 (sym f ∙ e) ∙ empty))
    | inr full ↦ elim (str_eq-cases a "text/event-stream") [
      | inl stream ↦
          rw (stream, accepting)
            (accepted-lookup, λ _ a' f c. c.1 (some_inj.0 (sym f ∙ e) ∙ stream))
      | inr other ↦
          rw (full, other, accepting)
            (
              refl,
              a,
              e,
              (
                λ h. ground (arith, eq_iff a "", h),
                λ h. ground (arith, eq_iff a "text/event-stream", h),
              ),
              refl,
            )
    ]
  ]

  -- A request has the headers of its caller. A request id and a JSON content type are added where
  -- they are given and the caller has set none; a stream of events is asked for, whatever the caller
  -- has set, except that an `Accept` header which is not empty and asks for something else is refused.
  -- Only this is refused.
  pub request_headers-AreHeaders :
      (use_streaming : Bool)
      → AreHeaders use_streaming request_id body user
          (request_headers use_streaming request_id body user)
  unfolding request_headers with_accept
  request_headers-AreHeaders false = (λ name. added-lookup request_id body name user, λ h. cc)
  request_headers-AreHeaders true =
      rw (added-accept request_id body user) (accepting-AreHeaders _ refl)
