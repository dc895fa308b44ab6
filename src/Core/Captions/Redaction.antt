-- ===== src/Core/Captions/Redaction.antt =====
-- What a handler's result can change on the screen.
use pipa_personal_assistant.Prelude.{
  suc, ◌≡◌, refl, sym, ap, ◌∙◌, String, not, List, [], ◌∷◌, All, ◌==◌, if◌then◌else◌, Bool-cases,
  inl, inr, arith,
}
use pipa_personal_assistant.Prelude.Text.{is_empty}
use pipa_personal_assistant.Json.{
  Value, null, bool, str, list, dict, Items, nil, cons, Fields, end, field, get_field, item_count,
}
use pipa_personal_assistant.Core.Captions.{
  get, is_true, is_false, is_text, truthy, percentage, default_caption, mute_caption,
  timers_caption, league_status_caption, tool_caption, power_caption, volume_caption,
  search_status_caption, search_caption, wait_caption, safe_result_caption,
}

-- The keys of a result that the screen may show something of.
abbrev pub shown_keys : List String
shown_keys =
    "success" ∷ "sent" ∷ "available" ∷ "percent" ∷ "plugged" ∷ "volume" ∷ "muted" ∷ "timers"
    ∷ "supported" ∷ "match_found" ∷ "searching" ∷ "state" ∷ "search" ∷ "already_searching"
    ∷ "started" ∷ "found" ∷ "timed_out" ∷ "already_not_searching" ∷ []

-- so many items, without their contents
abbrev blank_items : Items → Items
blank_items nil = nil
blank_items (cons v vs) = cons null (blank_items vs)

-- of a text only whether it is empty or "unknown"
abbrev blank_text : String → String
blank_text s = if is_empty s then "" else if s == "unknown" then "unknown" else "text"

abbrev blank_flag : Value → Value
blank_flag (bool b) = bool b
blank_flag _ = null

-- of an object three flags
abbrev blank_fields : Fields → Fields
blank_fields end = end
blank_fields (field k v f) = field "match_found" (blank_flag (get "match_found" (field k v f))) (
    field "searching" (blank_flag (get "searching" (field k v f)))
      (field "supported" (blank_flag (get "supported" (field k v f))) end))

-- What the screen may show of a value: a truth value or a number as it is, of a text whether it is
-- empty or "unknown", of a list its length, and of an object the three flags of a search.
unfoldable pub redacted : Value → Value
redacted (str s) = str (blank_text s)
redacted (list vs) = list (blank_items vs)
redacted (dict f) = dict (blank_fields f)
redacted v = v

is_true-redacted : (v : Value) → is_true v ≡ is_true (redacted v)
unfolding redacted
is_true-redacted v = ground arith

is_false-redacted : (v : Value) → is_false v ≡ is_false (redacted v)
unfolding redacted
is_false-redacted v = ground arith

blank_unknown : (s : String) → (s == "unknown") ≡ (blank_text s == "unknown")
blank_unknown String.[] = refl
blank_unknown (String.◌∷◌ c s) = elim (Bool-cases (String.◌∷◌ c s == "unknown")) [
  | inl e ↦ rw e refl
  | inr e ↦ rw e refl
]

is_empty-blank_text : (s : String) → is_empty s ≡ is_empty (blank_text s)
is_empty-blank_text String.[] = refl
is_empty-blank_text (String.◌∷◌ c s) = elim (Bool-cases (String.◌∷◌ c s == "unknown")) [
  | inl e ↦ rw e refl
  | inr e ↦ rw e refl
]

is_unknown-redacted : (v : Value) → is_text "unknown" v ≡ is_text "unknown" (redacted v)
unfolding redacted
is_unknown-redacted (str s) = blank_unknown s
is_unknown-redacted v = refl

truthy-redacted : (v : Value) → truthy v ≡ truthy (redacted v)
unfolding redacted
truthy-redacted (str s) = ap not (is_empty-blank_text s)
truthy-redacted (list nil) = refl
truthy-redacted (list (cons v vs)) = refl
truthy-redacted (dict end) = refl
truthy-redacted (dict (field k v f)) = refl
truthy-redacted v = refl

percentage-redacted : (v : Value) → percentage v ≡ percentage (redacted v)
unfolding redacted
percentage-redacted v = ground arith

mute_caption-redacted :
    (other : String) (v : Value) → mute_caption v other ≡ mute_caption (redacted v) other
unfolding redacted mute_caption
mute_caption-redacted other v = ground arith

item_count-blank_items : (vs : Items) → item_count vs ≡ item_count (blank_items vs)
unfolding item_count
item_count-blank_items nil = refl
item_count-blank_items (cons v vs) = ap suc (item_count-blank_items vs)

timers_caption-redacted :
    (other : String) (v : Value) → timers_caption v other ≡ timers_caption (redacted v) other
unfolding redacted timers_caption
timers_caption-redacted other (list vs) = rw⁻¹ (item_count-blank_items vs) refl
timers_caption-redacted other v = refl

is_true-blank_flag : (v : Value) → is_true v ≡ is_true (blank_flag v)
is_true-blank_flag v = ground arith

is_false-blank_flag : (v : Value) → is_false v ≡ is_false (blank_flag v)
is_false-blank_flag v = ground arith

league_status-redacted : (v : Value) → league_status_caption v ≡ league_status_caption (redacted v)
unfolding redacted league_status_caption get_field
league_status-redacted (dict end) = refl
league_status-redacted (dict (field k v f)) =
    let g = field k v f in
    simp (
      is_true-blank_flag (get "match_found" g),
      is_true-blank_flag (get "searching" g),
      is_false-blank_flag (get "supported" g),
    )
league_status-redacted v = refl

-- A function that is the same on the redacted value does not tell apart what that is the same of.
same_seen {ℓ} :
    {B : Type ℓ} (f : Value → B)
    → ((v : Value) → f v ≡ f (redacted v))
    → {v w : Value} → redacted v ≡ redacted w
    → f v ≡ f w
same_seen f h {v} {w} e = h v ∙ ap f e ∙ sym (h w)

-- Two results whose values under `shown_keys` are the same when redacted have the same caption, for
-- every tool: URLs, contacts, messages, the labels of timers and whatever else a handler returns do
-- not reach the screen, which shows of a list its length, of a text only whether it is empty or
-- "unknown", of an object the three flags of a search, and truth values and numbers as they are.
pub safe_result_caption-shown :
    (tool : String) (r s : Fields)
    → All (λ k. redacted (get k r) ≡ redacted (get k s)) shown_keys
    → safe_result_caption tool r ≡ safe_result_caption tool s
unfolding safe_result_caption tool_caption power_caption volume_caption search_status_caption
    search_caption wait_caption
safe_result_caption-shown tool r s h = simp (
  same_seen is_false is_false-redacted h.0,
  same_seen is_true is_true-redacted h.1.0,
  same_seen is_false is_false-redacted h.1.1.0,
  same_seen percentage percentage-redacted h.1.1.1.0,
  same_seen is_true is_true-redacted h.1.1.1.1.0,
  same_seen percentage percentage-redacted h.1.1.1.1.1.0,
  same_seen (λ v. mute_caption v (default_caption tool))
      (mute_caption-redacted (default_caption tool)) h.1.1.1.1.1.1.0,
  same_seen (λ v. timers_caption v (default_caption tool))
      (timers_caption-redacted (default_caption tool)) h.1.1.1.1.1.1.1.0,
  same_seen is_false is_false-redacted h.1.1.1.1.1.1.1.1.0,
  same_seen is_true is_true-redacted h.1.1.1.1.1.1.1.1.1.0,
  same_seen is_true is_true-redacted h.1.1.1.1.1.1.1.1.1.1.0,
  same_seen is_false is_false-redacted h.1.1.1.1.1.1.1.1.1.1.0,
  same_seen (is_text "unknown") is_unknown-redacted h.1.1.1.1.1.1.1.1.1.1.1.0,
  same_seen league_status_caption league_status-redacted h.1.1.1.1.1.1.1.1.1.1.1.1.0,
  same_seen truthy truthy-redacted h.1.1.1.1.1.1.1.1.1.1.1.1.1.0,
  same_seen truthy truthy-redacted h.1.1.1.1.1.1.1.1.1.1.1.1.1.1.0,
  same_seen is_true is_true-redacted h.1.1.1.1.1.1.1.1.1.1.1.1.1.1.1.0,
  same_seen is_true is_true-redacted h.1.1.1.1.1.1.1.1.1.1.1.1.1.1.1.1.0,
  same_seen is_true is_true-redacted h.1.1.1.1.1.1.1.1.1.1.1.1.1.1.1.1.1.0,
)
