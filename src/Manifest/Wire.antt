-- ===== src/Manifest/Wire.antt =====
-- The register's wire format in manifest.rs: string fields under `chorus.*` keys. A `HashMap` is an
-- association list; the keys are constants, the values are texts.
use chorus.Prelude.{
  ℕ, Bool, true, false, not, ◌&&◌, ◌||◌, Option, none, some, List, [], ◌∷◌, ◌++◌, map, String, leb,
  ◌==◌, if◌then◌else◌, u32_max, u64_max, length, Result, ok, err, ◌>>=◌, ◌>>◌, map_ok,
}
use text.Mathlib.Text.{◌==◌ as str_eq}
use mathlib.Core.Option
use chorus.Errors.{ProtocolError}
use chorus.Errors.ProtocolError.{invalid_manifest}
use chorus.Text.{Text, is_empty}
use chorus.Text.Format.{decimal, hex_padded, from_str_radix}
use chorus.Manifest.{ManifestRecord, DirectoryEntry, reject, some_and, validate}

abbrev pub Fields : Type 0
Fields = List (String × Text)

unfoldable pub field : String → Fields → Option Text
field key [] = none
field key ((k, v) ∷ fields) = if str_eq k key then some v else field key fields

-- `join` and `split` at a one-byte separator.
unfoldable pub join : ℕ → List Text → Text
join c [] = []
join c (t ∷ []) = t
join c (t ∷ u ∷ ts) = t ++ (c ∷ join c (u ∷ ts))

abbrev pub cons_first : ℕ → List Text → List Text
cons_first b [] = (b ∷ []) ∷ []
cons_first b (t ∷ ts) = (b ∷ t) ∷ ts

unfoldable pub split : ℕ → Text → List Text
split c [] = [] ∷ []
split c (b ∷ t) = if b == c then [] ∷ split c t else cons_first b (split c t)

unfoldable pub encode_entry : DirectoryEntry → Text
encode_entry entry = entry.id ++ (b':' ∷ decimal entry.base ++ (b':' ∷ hex_padded 8 entry.crc32c))

unfoldable pub encode_segments : List DirectoryEntry → Text
unfolding join encode_entry
encode_segments segments = join b',' (map encode_entry segments)

-- `is_ascii_digit() || (b'a'..=b'f').contains(byte)`
abbrev pub lower_hex : ℕ → Bool
lower_hex b = leb 48 b && leb b 57 || leb 97 b && leb b 102

unfoldable pub all_lower_hex : Text → Bool
all_lower_hex [] = true
all_lower_hex (b ∷ t) = lower_hex b && all_lower_hex t

abbrev pub entry_error : ProtocolError
entry_error = invalid_manifest "invalid chorus.segments entry"

-- `ok_or_else` and `map_err`
abbrev pub ok_or {ℓ κ} : {E : Type ℓ} {A : Type κ} → Option A → E → Result E A
ok_or none e = err e
ok_or (some a) e = ok a

-- The fields of one entry, once it is split at its colons.
unfoldable pub decode_entry : List Text → Result ProtocolError DirectoryEntry
unfolding all_lower_hex
decode_entry (id ∷ base ∷ crc ∷ more) = do
  reject (not (length crc == 8) || not (all_lower_hex crc)) entry_error
  crc32c ← ok_or (from_str_radix 16 u32_max crc) entry_error
  reject (not (length more == 0)) entry_error
  reject (is_empty id) entry_error
  parsed ← ok_or (from_str_radix 10 u64_max base) entry_error
  ok (record { id = id; base = parsed; crc32c = crc32c })
decode_entry _ = err entry_error

unfoldable pub decode_parts : Option ℕ → List Text → Result ProtocolError (List DirectoryEntry)
unfolding decode_entry
decode_parts previous [] = ok []
decode_parts previous (part ∷ parts) = do
  entry ← decode_entry (split b':' part)
  reject (some_and previous (λ base. leb entry.base base))
      (invalid_manifest "chorus.segments bases must be strictly increasing")
  segments ← decode_parts (some entry.base) parts
  ok (entry ∷ segments)

unfoldable pub decode_segments : Text → Result ProtocolError (List DirectoryEntry)
unfolding decode_parts split
decode_segments [] = ok []
decode_segments (b ∷ value) = decode_parts none (split b',' (b ∷ value))

unfoldable pub decode_buckets : Text → Result ProtocolError (List Text)
unfolding split
decode_buckets [] = err (invalid_manifest "chorus.buckets must not be empty")
decode_buckets (b ∷ value) = ok (split b',' (b ∷ value))

abbrev pub insert_some : String → Option Text → Fields
insert_some key none = []
insert_some key (some v) = (key, v) ∷ []

unfoldable pub encode : ManifestRecord → Fields
unfolding encode_segments join
encode r =
    ("chorus.format", b'1' ∷ [])
    ∷ ("chorus.epoch", decimal r.epoch)
    ∷ ("chorus.owner", r.owner)
    ∷ ("chorus.tail_base", decimal r.tail_base)
    ∷ ("chorus.trunc", decimal r.trunc)
    ∷ ("chorus.segments", encode_segments r.segments)
    ∷ ("chorus.buckets", join b',' r.buckets)
    ∷ (insert_some "chorus.tail_id" r.tail_id
        ++ (insert_some "chorus.pending_id" r.pending_id
            ++ (insert_some "chorus.seal_base" (Option.map decimal r.seal_base)
                ++ (insert_some "chorus.seal_id" r.seal_id
                    ++ insert_some "chorus.seal_digest" r.seal_digest))))

abbrev pub is_format : Option Text → Bool
is_format (some (b ∷ [])) = b == b'1'
is_format _ = false

abbrev pub number : Option Text → Result ProtocolError ℕ
number value = do
  text ← ok_or value (invalid_manifest "manifest lacks a field")
  ok_or (from_str_radix 10 u64_max text) (invalid_manifest "invalid field")

abbrev pub optional_number : Option Text → Result ProtocolError (Option ℕ)
optional_number none = ok none
optional_number (some text) =
    map_ok some
      (ok_or (from_str_radix 10 u64_max text) (invalid_manifest "invalid chorus.seal_base"))

abbrev pub or_empty : Option Text → Text
or_empty none = []
or_empty (some t) = t

-- Every field, before `validate`.
unfoldable pub decode_fields : Fields → Result ProtocolError ManifestRecord
unfolding field decode_segments decode_buckets
decode_fields fields = do
  reject (not (is_format (field "chorus.format" fields)))
      (invalid_manifest "manifest does not use chorus.format=1")
  listed ←
      ok_or (field "chorus.segments" fields) (invalid_manifest "manifest lacks chorus.segments")
  segments ← decode_segments listed
  seal_base ← optional_number (field "chorus.seal_base" fields)
  named ← ok_or (field "chorus.buckets" fields) (invalid_manifest "manifest lacks chorus.buckets")
  buckets ← decode_buckets named
  epoch ← number (field "chorus.epoch" fields)
  tail_base ← number (field "chorus.tail_base" fields)
  trunc ← number (field "chorus.trunc" fields)
  ok (record {
    epoch = epoch;
    owner = or_empty (field "chorus.owner" fields);
    tail_base = tail_base;
    tail_id = field "chorus.tail_id" fields;
    pending_id = field "chorus.pending_id" fields;
    seal_base = seal_base;
    seal_id = field "chorus.seal_id" fields;
    seal_digest = field "chorus.seal_digest" fields;
    trunc = trunc;
    segments = segments;
    buckets = buckets;
  })

unfoldable pub decode : Fields → Result ProtocolError ManifestRecord
unfolding decode_fields
decode fields = do r ← decode_fields fields; validate r; ok r
