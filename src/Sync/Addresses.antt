-- ===== src/Sync/Addresses.antt =====
-- src/sync15/engines/addresses.ts and creditcards.ts: the payloads of the two other collections.
-- The fields that no code here reads travel in `other`, as the index signature of the source has it.
use fire_sync.Prelude.{
  ℕ, String, Bool, false, not, Option, none, some, List, [], ◌∷◌, or_default, if◌then◌else◌, ◌==◌,
}
use fire_sync.Prelude.Dict.{Dict}
use Prim.Native.String

abbrev pub address_schema_version : ℕ
address_schema_version = 1

pub record AddressEntry : Type 0 where
  pub version : ℕ
  pub given_name : Option String
  pub family_name : Option String
  pub street_address : Option String
  pub address_level2 : Option String
  pub postal_code : Option String
  pub time_created : Option ℕ
  pub time_last_modified : Option ℕ
  pub time_last_used : Option ℕ
  pub times_used : Option ℕ
  pub other : Dict String

pub record AddressRecord : Type 0 where
  pub id : String
  pub entry : Option AddressEntry

unfoldable pub new_address_record : String → ℕ → AddressEntry → AddressRecord
new_address_record id now fields = record {
  id = id;
  entry = some (record fields {
    version = address_schema_version;
    time_created = some now;
    time_last_modified = some now;
    time_last_used = some now;
    times_used = some 1;
  });
}

unfoldable pub address_authority_time : AddressRecord → ℕ
address_authority_time r = elim r.entry [
  | none ↦ 0
  | some entry ↦ or_default entry.time_last_modified (or_default entry.time_created 0)
]

-- `[…].filter(Boolean).join(separator)`: a missing part and an empty one are left out.
abbrev pub present_parts : List (Option String) → List String
present_parts [] = []
present_parts (none ∷ parts) = present_parts parts
present_parts (some s ∷ parts) =
    let rest = present_parts parts in if s == "" then rest else s ∷ rest

abbrev pub join : String → List String → String
join separator [] = ""
join separator (s ∷ []) = s
join separator (s ∷ t ∷ rest) = String.◌++◌ s (String.◌++◌ separator (join separator (t ∷ rest)))

unfoldable pub format_address_label : AddressEntry → String
format_address_label entry =
    let name = join " " (present_parts (entry.given_name ∷ entry.family_name ∷ [])) in
    let place =
      join ", "
        (present_parts (entry.street_address ∷ entry.address_level2 ∷ entry.postal_code ∷ [])) in
    let label = join " — " (present_parts (some name ∷ some place ∷ [])) in
    if label == "" then "Address" else label

pub record CreditCardEntry : Type 0 where
  pub version : ℕ
  pub cc_number : Option String
  pub time_created : Option ℕ
  pub time_last_modified : Option ℕ
  pub other : Dict String

pub record CreditCardRecord : Type 0 where
  pub id : String
  pub entry : Option CreditCardEntry

unfoldable pub is_card_number_readable : CreditCardRecord → Bool
is_card_number_readable r = elim r.entry [
  | none ↦ false
  | some entry ↦ elim entry.cc_number [ none ↦ false | some number ↦ not (number == "") ]
]
