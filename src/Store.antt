-- ===== src/Store.antt =====
-- packages/service/src/store.ts: the artifact store in memory and on disk, the sidecar that it
-- exports and the read that its route serves. Values are JSON values; JSON's printing and parsing,
-- and the file system's limit on names, are parameters.
pub mod Refinement
pub mod Maps
use Prim.Native.Char.{Char, code}
use btcr2_aggregation.Prelude.{
  ◌+◌, ◌≡◌, ◌==◌, ◌&&◌, ◌||◌, not, Bool, true, false, List, [], ◌∷◌, Option, none, some, String, ℕ,
  if◌then◌else◌, ltb, leb, nat_eq, or_else, is_some, map,
}
use btcr2_aggregation.Prelude.Checked.{Checked, valid, problem, ◌>>=◌}
use btcr2_aggregation.Prelude.Text.{utf16_length}
use btcr2_aggregation.OrderedMap.{OrderedMap, get, has, set, delete, values}

pub data ArtifactKind : Type 0 where
  announcement proof update genesis acceptance : ArtifactKind

-- The kind as the text that it is in the source, in keys, paths and routes.
unfoldable pub segment : ArtifactKind → String
segment announcement = "announcement"
segment proof = "proof"
segment update = "update"
segment genesis = "genesis"
segment acceptance = "acceptance"

unfoldable pub is_hex_digit : ℕ → Bool
is_hex_digit c = (leb 48 c && leb c 57) || (leb 97 c && leb c 102)

-- `toLowerCase` on the letters that a hexadecimal text may have: a text with any other letter is
-- refused in either case.
unfoldable pub lower_hex : Char → Char
lower_hex c =
    if nat_eq (code c) 65
    then "a"
    else if nat_eq (code c) 66
    then "b"
    else if nat_eq (code c) 67
    then "c"
    else if nat_eq (code c) 68
    then "d"
    else if nat_eq (code c) 69
    then "e"
    else if nat_eq (code c) 70
    then "f"
    else c

unfoldable pub to_lower : String → String
unfolding lower_hex
to_lower String.[] = String.[]
to_lower (String.◌∷◌ c s) = String.◌∷◌ (lower_hex c) (to_lower s)

unfoldable pub all_hex : String → Bool
unfolding is_hex_digit
all_hex String.[] = true
all_hex (String.◌∷◌ c s) = is_hex_digit (code c) && all_hex s

-- `HEX_KEY.test`.
unfoldable pub matches_hex_key : String → Bool
unfolding all_hex
matches_hex_key s = not (s == "") && all_hex s

unfoldable pub is_hex_key : String → Bool
unfolding to_lower matches_hex_key
is_hex_key key = matches_hex_key (to_lower key)

pub data StoreError : Type 0 where
  bad_key : String → StoreError
  io_error : StoreError

unfoldable pub normalize_hex_key : String → Checked StoreError String
unfolding to_lower matches_hex_key
normalize_hex_key key =
    let lower = to_lower key in if matches_hex_key lower then valid lower else problem (bad_key key)

-- What the rest of the service uses of a store: `ArtifactStore`, over the states `S`.
pub record ArtifactStore (S : Type 0) (V : Type 0) : Type 0 where
  pub put : ArtifactKind → String → V → S → Checked StoreError S
  pub get_artifact : ArtifactKind → String → S → Checked StoreError (Option V)
  pub has_artifact : ArtifactKind → String → S → Checked StoreError Bool
  pub entries : ArtifactKind → S → List (String × V)
  pub delete_artifact : ArtifactKind → String → S → Checked StoreError S

-- A map for each kind.
abbrev pub KindMaps : Type 0 → Type 0
KindMaps V = OrderedMap (OrderedMap V)

module _ {V : Type 0} where
  -- The map of a kind, empty before its first entry.
  unfoldable pub map_of : String → KindMaps V → OrderedMap V
  unfolding get
  map_of kind s = or_else (get kind s) []

  unfoldable pub write_at : String → String → V → KindMaps V → KindMaps V
  unfolding map_of set
  write_at kind key v s = set kind (set key v (map_of kind s)) s

  unfoldable pub read_at : String → String → KindMaps V → Option V
  unfolding map_of get
  read_at kind key s = get key (map_of kind s)

  unfoldable pub delete_at : String → String → KindMaps V → KindMaps V
  unfolding map_of set delete
  delete_at kind key s = set kind (delete key (map_of kind s)) s

  -- `MemoryArtifactStore`.
  unfoldable pub memory_artifact_store : ArtifactStore (KindMaps V) V
  unfolding normalize_hex_key segment write_at read_at delete_at map_of
  memory_artifact_store = record {
    put = λ kind key v s. normalize_hex_key key >>= λ k. valid (write_at (segment kind) k v s);
    get_artifact = λ kind key s. normalize_hex_key key >>= λ k. valid (read_at (segment kind) k s);
    has_artifact =
        λ kind key s. normalize_hex_key key >>= λ k. valid (is_some (read_at (segment kind) k s));
    entries = λ kind s. map_of (segment kind) s;
    delete_artifact =
        λ kind key s. normalize_hex_key key >>= λ k. valid (delete_at (segment kind) k s);
  }

-- `JSON.stringify(value, null, 2)` with the final line end, and `JSON.parse`, `none` for a
-- `SyntaxError`.
pub record Json (V : Type 0) : Type 0 where
  pub stringify : V → String
  pub parse : String → Option V

module _ {V : Type 0} (json : Json V) (name_too_long : String → Bool) where
  abbrev pub entry_of : String → Bool → Option V → List (String × V) → List (String × V)
  entry_of stem true (some value) rest = (stem, value) ∷ rest
  entry_of stem true none rest = rest
  entry_of stem false parsed rest = rest

  -- The files of a directory that have hexadecimal names and parse.
  unfoldable pub parsed_entries : OrderedMap String → List (String × V)
  unfolding is_hex_key
  parsed_entries [] = []
  parsed_entries ((stem, text) ∷ files) =
      entry_of stem (is_hex_key stem) (json.parse text) (parsed_entries files)

  abbrev pub parse_file : Option String → Option V
  parse_file none = none
  parse_file (some text) = json.parse text

  -- `FileSystemArtifactStore`: `writeFile` throws on a name that is too long, and the others take
  -- the file for missing. The state has the `.json` files of each directory by their stems.
  unfoldable pub file_system_artifact_store : ArtifactStore (KindMaps String) V
  unfolding normalize_hex_key segment write_at read_at delete_at map_of parsed_entries
  file_system_artifact_store = record {
    put = λ kind key v s. normalize_hex_key key >>= λ k.
        if name_too_long k
        then problem io_error
        else valid (write_at (segment kind) k (json.stringify v) s);
    get_artifact = λ kind key s. normalize_hex_key key >>= λ k.
        if name_too_long k then valid none else valid (parse_file (read_at (segment kind) k s));
    has_artifact = λ kind key s. normalize_hex_key key >>= λ k.
        if name_too_long k then valid false else valid (is_some (read_at (segment kind) k s));
    entries = λ kind s. parsed_entries (map_of (segment kind) s);
    delete_artifact = λ kind key s. normalize_hex_key key >>= λ k.
        if name_too_long k then valid s else valid (delete_at (segment kind) k s);
  }

-- `Sidecar`, without its context.
pub record Sidecar (V : Type 0) : Type 0 where
  pub genesis_document : Option V
  pub updates : List V
  pub cas_updates : List V
  pub smt_proofs : List V

-- What the route answers.
pub data Served (V : Type 0) : Type 0 where
  found : V → Served V
  unknown_kind not_hex not_found store_failure : Served V

abbrev pub max_route_key_len : ℕ
max_route_key_len = 128

-- `KIND_BY_SEGMENT`.
unfoldable pub kind_by_segment : String → Option ArtifactKind
kind_by_segment s =
    if s == "announcement"
    then some announcement
    else if s == "proof"
    then some proof
    else if s == "update"
    then some update
    else if s == "genesis"
    then some genesis
    else if s == "acceptance"
    then some acceptance
    else none

module _ {S V : Type 0} (store : ArtifactStore S V) where
  abbrev pub found_genesis : Option String → S → Checked StoreError (Option V)
  found_genesis none s = valid none
  found_genesis (some hash) s = if hash == "" then valid none else store.get_artifact genesis hash s

  -- `exportSidecar`. A list that the source leaves out for being empty is empty here.
  unfoldable pub export_sidecar : Option String → S → Checked StoreError (Sidecar V)
  export_sidecar genesis_hash s = found_genesis genesis_hash s >>= λ document. valid (record {
    genesis_document = document;
    updates = values (store.entries update s);
    cas_updates = values (store.entries announcement s);
    smt_proofs = values (store.entries proof s);
  })

  abbrev pub served_value : Checked StoreError (Option V) → Served V
  served_value (valid (some value)) = found value
  served_value (valid none) = not_found
  served_value (problem e) = store_failure

  abbrev pub serve_kind : Option ArtifactKind → String → S → Served V
  unfolding is_hex_key utf16_length to_lower
  serve_kind none hash s = unknown_kind
  serve_kind (some kind) hash s =
      if not (is_hex_key hash) || ltb max_route_key_len (utf16_length hash)
      then not_hex
      else served_value (store.get_artifact kind (to_lower hash) s)

  -- `GET /cas/:kind/:hash`.
  unfoldable pub serve_artifact : String → String → S → Served V
  unfolding kind_by_segment is_hex_key utf16_length to_lower
  serve_artifact kind_text hash s = serve_kind (kind_by_segment kind_text) hash s
