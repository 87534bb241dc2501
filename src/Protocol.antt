-- ===== src/Protocol.antt =====
-- adapters/inbound/websocket/protocol.ts: what the schema lets through of a commit message. The
-- schema trims each text and refuses an empty one.
use synch.Common.{
  ◌≡◌, subst, String, ◌==◌, Bool, true, false, ◌&&◌, Option, none, some, List, [], ◌∷◌, arith, leb,
  length, if◌then◌else◌, trim, All, inl, inr, Bool-cases, Option-cases,
}
use synch.Domain.EntryPolicy.{EntryOp, upsert, delete}
use synch.Mutation.{CommitMutationPayload}
use synch.Mutation.Writes.{IsNamed}

-- `z.string().trim().min(1)`
unfoldable pub non_empty_string : String → Option String
non_empty_string s = let t = trim s in if t == "" then none else some t

-- `nonEmptyString.nullable()`
unfoldable pub nullable_string : Option String → Option (Option String)
nullable_string none = some none
nullable_string (some s) = elim (non_empty_string s) [ none ↦ none | some t ↦ some (some t) ]

-- `superRefine`: an upsert names a blob, a deletion does not.
abbrev pub op_allows : EntryOp → Option String → Bool
op_allows upsert none = false
op_allows upsert (some b) = true
op_allows delete none = true
op_allows delete (some b) = false

infixl 5 ◌>>=◌
abbrev ◌>>=◌ {ℓ κ} : {A : Type ℓ} {B : Type κ} → Option A → (A → Option B) → Option B
none >>= f = none
some a >>= f = f a

unfoldable pub parse_commit_payload : CommitMutationPayload → Option CommitMutationPayload
unfolding non_empty_string nullable_string
parse_commit_payload raw = do
  mutation_id ← non_empty_string raw.mutation_id
  entry_id ← non_empty_string raw.entry_id
  blob_id ← nullable_string raw.blob_id
  encrypted_metadata ← non_empty_string raw.encrypted_metadata
  if op_allows raw.op blob_id
      then some (record {
        mutation_id = mutation_id;
        entry_id = entry_id;
        op = raw.op;
        base_revision = raw.base_revision;
        blob_id = blob_id;
        encrypted_metadata = encrypted_metadata;
      })
      else none

parse_all : List CommitMutationPayload → Option (List CommitMutationPayload)
parse_all [] = some []
parse_all (raw ∷ raws) = do m ← parse_commit_payload raw; ms ← parse_all raws; some (m ∷ ms)

-- `z.array(…).min(1).max(100)`
unfoldable pub parse_commit_payloads :
    List CommitMutationPayload → Option (List CommitMutationPayload)
unfolding parse_all
parse_commit_payloads raws =
    if leb 1 (length raws) && leb (length raws) 100 then parse_all raws else none

-- What a parsed payload is known to satisfy.
pub record IsParsed (m : CommitMutationPayload) : Type 0 where
  pub named : IsNamed m.blob_id
  pub allowed : op_allows m.op m.blob_id ≡ true

some_inj : {A : Type 0} {a b : A} → ◌≡◌ {A = Option A} (some a) (some b) → a ≡ b
some_inj h = cc

nullable_string-IsNamed :
    (o : Option String) {p : Option String} → nullable_string o ≡ some p → IsNamed p
unfolding nullable_string non_empty_string
nullable_string-IsNamed none {p} h = subst IsNamed (some_inj h) tt
nullable_string-IsNamed (some s) {p} h = elim (Bool-cases (trim s == "")) [
  | inl e ↦ absurd (ground arith)
  | inr e ↦ let same : some (trim s) ≡ p = ground arith in subst IsNamed same e
]

parse_commit_payload-IsParsed :
    (raw : CommitMutationPayload) {m : CommitMutationPayload}
    → parse_commit_payload raw ≡ some m
    → IsParsed m
unfolding parse_commit_payload
parse_commit_payload-IsParsed raw {m} h = elim (Option-cases (nullable_string raw.blob_id)) [
  | inl e ↦ absurd (ground arith)
  | inr (b, e) ↦
      let same : b ≡ m.blob_id = ground arith in
      record {
        named = subst IsNamed same (nullable_string-IsNamed raw.blob_id {p = b} e);
        allowed = ground arith;
      }
]

parse_all-IsParsed :
    (raws : List CommitMutationPayload) {ms : List CommitMutationPayload}
    → parse_all raws ≡ some ms
    → All IsParsed ms
unfolding parse_all
parse_all-IsParsed [] {ms} h = subst (All IsParsed) (some_inj h) tt
parse_all-IsParsed (raw ∷ raws) {ms} h = elim (Option-cases (parse_commit_payload raw)) [
  | inl e ↦ absurd (ground arith)
  | inr (m, e) ↦ elim (Option-cases (parse_all raws)) [
    | inl f ↦ absurd (ground arith)
    | inr (rest, f) ↦
        let same : m ∷ rest ≡ ms = ground arith in
        subst (All IsParsed) same
          (parse_commit_payload-IsParsed raw {m = m} e, parse_all-IsParsed raws {ms = rest} f)
  ]
]

pub parse_commit_payloads-IsParsed :
    (raws : List CommitMutationPayload) {ms : List CommitMutationPayload}
    → parse_commit_payloads raws ≡ some ms
    → All IsParsed ms
unfolding parse_commit_payloads
parse_commit_payloads-IsParsed raws {ms} h =
    elim (Bool-cases (leb 1 (length raws) && leb (length raws) 100)) [
      | inl e ↦ parse_all-IsParsed raws {ms = ms} (rw e at h)
      | inr e ↦ absurd (ground arith)
    ]
