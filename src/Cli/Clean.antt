-- ===== src/Cli/Clean.antt =====
-- What `clean_json` leaves.
use overlay_mcp.Base.{String, ◌≡◌, refl, ap, ap₂, ◌∙◌, ◌↔◌, subst, Bool, false}
use overlay_mcp.Core.Json.{
  Value, null, bool, number, string, array, object, Number, Items, nil, cons, Fields, end, field,
}
use overlay_mcp.Cli.{is_blank, keep_entry, clean_json, clean_items, clean_fields}

mutual
  -- No object in the value, however deep, has an entry that is null or an empty object.
  pub data IsClean : Value → Type 0 where
    null_clean : IsClean null
    bool_clean : (b : Bool) → IsClean (bool b)
    number_clean : (n : Number) → IsClean (number n)
    string_clean : (s : String) → IsClean (string s)
    array_clean : {arr : Items} → AllClean arr → IsClean (array arr)
    object_clean : {map : Fields} → NoBlank map → IsClean (object map)

  pub data AllClean : Items → Type 0 where
    no_items : AllClean nil
    an_item : {v : Value} {arr : Items} → IsClean v → AllClean arr → AllClean (cons v arr)

  pub data NoBlank : Fields → Type 0 where
    no_entries : NoBlank end
    an_entry :
        {k : String} {v : Value} {map : Fields}
        → is_blank v ≡ false
        → IsClean v
        → NoBlank map
        → NoBlank (field k v map)

keep_entry-NoBlank :
    (k : String) (v : Value) (rest : Fields)
    → IsClean v
    → NoBlank rest
    → NoBlank (keep_entry k v rest)
keep_entry-NoBlank k null rest c n = n
keep_entry-NoBlank k (object end) rest c n = n
keep_entry-NoBlank k (object (field j w map)) rest c n = an_entry refl c n
keep_entry-NoBlank k (bool b) rest c n = an_entry refl c n
keep_entry-NoBlank k (number b) rest c n = an_entry refl c n
keep_entry-NoBlank k (string b) rest c n = an_entry refl c n
keep_entry-NoBlank k (array b) rest c n = an_entry refl c n

mutual
  unfolding clean_json

  cleaned : (v : Value) → IsClean (clean_json v)
  cleaned null = null_clean
  cleaned (bool b) = bool_clean b
  cleaned (number n) = number_clean n
  cleaned (string s) = string_clean s
  cleaned (array arr) = array_clean (clean_items-AllClean arr)
  cleaned (object map) = object_clean (clean_fields-NoBlank map)

  clean_items-AllClean : (arr : Items) → AllClean (clean_items arr)
  clean_items-AllClean nil = no_items
  clean_items-AllClean (cons v arr) = an_item (cleaned v) (clean_items-AllClean arr)

  clean_fields-NoBlank : (map : Fields) → NoBlank (clean_fields map)
  clean_fields-NoBlank end = no_entries
  clean_fields-NoBlank (field k v map) =
      keep_entry-NoBlank k (clean_json v) (clean_fields map) (cleaned v) (clean_fields-NoBlank map)

-- What `clean_json` returns has, at any depth, no object entry that is null or an empty object.
pub clean_json-IsClean : (v : Value) → IsClean (clean_json v)
clean_json-IsClean v = cleaned v

keep_entry-fixed :
    (k : String) (v : Value) (rest : Fields)
    → is_blank v ≡ false
    → keep_entry k v rest ≡ field k v rest
keep_entry-fixed k null rest h = absurd (cc)
keep_entry-fixed k (object end) rest h = absurd (cc)
keep_entry-fixed k (object (field j w map)) rest h = refl
keep_entry-fixed k (bool b) rest h = refl
keep_entry-fixed k (number b) rest h = refl
keep_entry-fixed k (string b) rest h = refl
keep_entry-fixed k (array b) rest h = refl

mutual
  unfolding clean_json

  unchanged : (v : Value) → IsClean v → clean_json v ≡ v
  unchanged _ null_clean = refl
  unchanged _ (bool_clean b) = refl
  unchanged _ (number_clean n) = refl
  unchanged _ (string_clean s) = refl
  unchanged _ (array_clean {arr} c) = ap array (unchanged_items arr c)
  unchanged _ (object_clean {map} c) = ap object (unchanged_fields map c)

  unchanged_items : (arr : Items) → AllClean arr → clean_items arr ≡ arr
  unchanged_items _ no_items = refl
  unchanged_items _ (an_item {v} {arr} c cs) = ap₂ cons (unchanged v c) (unchanged_items arr cs)

  unchanged_fields : (map : Fields) → NoBlank map → clean_fields map ≡ map
  unchanged_fields _ no_entries = refl
  unchanged_fields _ (an_entry {k} {v} {map} b c cs) =
      ap₂ (keep_entry k) (unchanged v c) (unchanged_fields map cs) ∙ keep_entry-fixed k v map b

-- `clean_json` leaves a value as it is exactly where no object in it, however deep, has an entry that is null
-- or an empty object.
pub clean_json-fixed : (v : Value) → (clean_json v ≡ v) ↔ IsClean v
clean_json-fixed v = (λ e. subst IsClean e (cleaned v), unchanged v)
