-- ===== src/RedTeam/Attack/Blueprint.antt =====
-- backend/app/redteam/domain/entities.py, `AttackDefinition`. Templates and parameters are of abstract
-- types.
use redops.Base.{
  ℕ, ◌+◌, String, Bool, true, false, Option, none, some, List, [], ◌∷◌, ◌++◌, if◌then◌else◌,
  is_empty, strip, strip-strip, Result, ok, raised, Call, return, raise, ◌≡◌, refl, ap, ◌∙◌, arith,
}
use redops.RedTeam.Budget.{Category}

pub data Severity : Type 0 where
  low medium high critical : Severity

pub data DefinitionStatus : Type 0 where
  draft active archived : DefinitionStatus

-- `is_editable`
abbrev pub is_editable : DefinitionStatus → Bool
is_editable draft = true
is_editable _ = false

-- The events of redteam/domain/events.py that a definition raises.
pub data DefinitionEvent : Type 0 where
  definition_created : String → Category → Severity → DefinitionEvent
  definition_updated definition_activated definition_archived : String → DefinitionEvent

-- `ConflictError` with the status, and `ValidationError(field="name")`.
pub data DefinitionError : Type 0 where
  conflict_error : DefinitionStatus → DefinitionError
  name_error : DefinitionError

pub record AttackDefinition (T D : Type 0) : Type 0 where
  pub name : String
  pub description : String
  pub category : Category
  pub severity : Severity
  pub template : T
  pub parameters : D
  pub tags : List String
  pub status : DefinitionStatus
  pub version : ℕ
  pub events : List DefinitionEvent

-- The arguments of `update`.
pub record Changes (T D : Type 0) : Type 0 where
  pub name : Option String
  pub description : Option String
  pub category : Option Category
  pub severity : Option Severity
  pub template : Option T
  pub parameters : Option D
  pub tags : Option (List String)

-- The new value of a field, where one is given.
abbrev pub set {ℓ} : {A : Type ℓ} → Option A → A → A
set none a = a
set (some b) a = b

abbrev set_stripped : Option String → String → String
set_stripped none a = a
set_stripped (some b) a = strip b

-- `name is not None and not name.strip()`
abbrev is_blank : Option String → Bool
is_blank none = false
is_blank (some n) = is_empty (strip n)

abbrev pub DefinitionCall : Type 0 → Type 0 → Type 0
DefinitionCall T D = Call (AttackDefinition T D) DefinitionError (Unit {0})

module _ {T D : Type 0} where
  abbrev emit : DefinitionEvent → AttackDefinition T D → AttackDefinition T D
  emit e d = record d { version = d.version + 1; events = d.events ++ (e ∷ []) }

  -- `create`; without a template the definition has one that is made of its name.
  unfoldable pub create :
      (String → T)
      → String
      → String
      → Category
      → Severity
      → Option T
      → D
      → List String
      → Result DefinitionError (AttackDefinition T D)
  create template_of name description category severity template parameters tags =
      if is_empty (strip name)
      then raised name_error
      else ok (record {
        name = strip name;
        description = strip description;
        category = category;
        severity = severity;
        template = set template (template_of (strip name));
        parameters = parameters;
        tags = tags;
        status = draft;
        version = 1;
        events = definition_created (strip name) category severity ∷ [];
      })

  -- The body of `update` behind its guards.
  unfoldable pub changed : Changes T D → AttackDefinition T D → AttackDefinition T D
  changed c d = record d {
    name = set_stripped c.name d.name;
    description = set_stripped c.description d.description;
    category = set c.category d.category;
    severity = set c.severity d.severity;
    template = set c.template d.template;
    parameters = set c.parameters d.parameters;
    tags = set c.tags d.tags;
  }

  unfoldable pub update : Changes T D → AttackDefinition T D → DefinitionCall T D
  unfolding changed
  update c d =
      if is_editable d.status
      then (if is_blank c.name
          then raise d name_error
          else return (emit (definition_updated (set_stripped c.name d.name)) (changed c d)) tt)
      else raise d (conflict_error d.status)

  unfoldable pub activate : AttackDefinition T D → DefinitionCall T D
  activate d = elim d.status [
    | draft ↦ return (emit (definition_activated d.name) (record d { status = active })) tt
    | s ↦ raise d (conflict_error s)
  ]

  unfoldable pub archive : AttackDefinition T D → DefinitionCall T D
  archive d = elim d.status [
    | archived ↦ raise d (conflict_error archived)
    | s ↦ return (emit (definition_archived d.name) (record d { status = archived })) tt
  ]

-- The methods that write, as requests.
pub data Request (T D : Type 0) : Type 0 where
  to_update : Changes T D → Request T D
  to_activate to_archive : Request T D

-- The name is stripped, and there is one.
abbrev pub IsNamed : {T D : Type 0} → AttackDefinition T D → Type 0
IsNamed d = (strip d.name ≡ d.name) × (is_empty d.name ≡ false)

module _ {T D : Type 0} where
  unfoldable pub serve : Request T D → AttackDefinition T D → AttackDefinition T D
  unfolding update activate archive
  serve (to_update c) d = (update c d).self
  serve to_activate d = (activate d).self
  serve to_archive d = (archive d).self

  unfoldable pub serve_all : List (Request T D) → AttackDefinition T D → AttackDefinition T D
  unfolding serve
  serve_all [] d = d
  serve_all (q ∷ qs) d = serve_all qs (serve q d)

  -- A definition in use is not edited: only its status, version and events may still change.
  abbrev pub SameContent : AttackDefinition T D → AttackDefinition T D → Type 0
  SameContent d e = e ≡ record d { status = e.status; version = e.version; events = e.events }

  served-IsNamed : (q : Request T D) (d : AttackDefinition T D) → IsNamed d → IsNamed (serve q d)
  unfolding serve changed
  served-IsNamed (to_update c) d h = renamed c.name
    where
      renamed : (o : Option String) → IsNamed (serve (to_update (record c { name = o })) d)
      renamed none = ground (arith, h.0, h.1)
      renamed (some n) = ground (arith, h.0, h.1, strip-strip n)
  served-IsNamed to_activate d h = ground (arith, h.0, h.1)
  served-IsNamed to_archive d h = ground (arith, h.0, h.1)

  serve_all-IsNamed :
      (qs : List (Request T D)) (d : AttackDefinition T D) → IsNamed d → IsNamed (serve_all qs d)
  unfolding serve_all
  serve_all-IsNamed [] d h = h
  serve_all-IsNamed (q ∷ qs) d h = serve_all-IsNamed qs (serve q d) (served-IsNamed q d h)

  -- Whatever is called on a definition that `create` has returned, its name is stripped and not empty.
  pub serve_all-create-IsNamed :
      (qs : List (Request T D)) (template_of : String → T) (name description : String)
      (category : Category) (severity : Severity) (template : Option T) (parameters : D)
      (tags : List String) (d : AttackDefinition T D)
      → create template_of name description category severity template parameters tags ≡ ok d
      → IsNamed (serve_all qs d)
  unfolding create
  serve_all-create-IsNamed qs template_of name description category severity template parameters
        tags d h =
      serve_all-IsNamed qs d (ground (arith, h, strip-strip name))

  served_fixed :
      (q : Request T D) (d : AttackDefinition T D)
      → is_editable d.status ≡ false
      → SameContent d (serve q d) × (is_editable (serve q d).status ≡ false)
  unfolding serve
  served_fixed q d h = ground arith

  -- Whatever is called on a definition that is not a draft, nothing but its status, its version and its
  -- events changes, and it does not become a draft again.
  pub serve_all_fixed :
      (qs : List (Request T D)) (d : AttackDefinition T D)
      → is_editable d.status ≡ false
      → SameContent d (serve_all qs d) × (is_editable (serve_all qs d).status ≡ false)
  unfolding serve_all
  serve_all_fixed [] d h = (refl, h)
  serve_all_fixed (q ∷ qs) d h =
      let (same, fixed) = served_fixed q d h in
      let (more, still) = serve_all_fixed qs (serve q d) fixed in
      let last = serve_all qs (serve q d) in
      (
        more
            ∙ ap
                (λ (x : AttackDefinition T D). record x {
                  status = last.status;
                  version = last.version;
                  events = last.events;
                })
                same,
        still,
      )
