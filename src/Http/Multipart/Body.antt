-- ===== src/Http/Multipart/Body.antt =====
-- parse_multipart_body of source/http/parser_v2/http_parser_v3.cpp. The disk is the list of the files that it creates.
use obelisk_asio_coro.Base.{
  ℕ, zero, suc, Bytes, Bool, true, false, List, [], ◌∷◌, ◌++◌, ◌+◌, ◌-◌, Option, none, some, length,
  take, drop, codes, beq, is_empty, if◌then◌else◌, ◌||◌, starts_with,
}
use mathlib.Core.Option
use obelisk_asio_coro.Http.Io.{contains}
use obelisk_asio_coro.Http.Header.{lookup}
use obelisk_asio_coro.Http.Json.{
  Json, array, string, null, element, no_elements, param, set_param, Params,
}
use obelisk_asio_coro.Http.Params.{emplace_back}
use obelisk_asio_coro.Http.Request.{File, RequestData}
use obelisk_asio_coro.Http.Multipart.Stream.{InStream, opened, getline}
use obelisk_asio_coro.Http.Multipart.Upload.{Copied, copy_file, copied, out_of_fuel, split_data}
use obelisk_asio_coro.Http.Multipart.Upload
use obelisk_asio_coro.Http.Multipart.Meta.{parse_disposition, parse_content_type}

-- What is taken from elsewhere: the uuids, `path(...).extension()`, the text of an exception that
-- sahara's THROW throws, and that of nlohmann's.
pub record Outside : Type 0 where
  pub ws : ℕ → Bool
  pub uuid : ℕ → Bytes
  pub extension : Bytes → Bytes
  pub what : Bytes → Bytes
  pub type_error : Bytes

-- What the parser changes: the request, the files on the disk, and how many uuids were taken.
pub record Work : Type 0 where
  pub request : RequestData
  pub disk : List (Bytes × Bytes)
  pub made : ℕ

-- How the parser ends, or a part of it: with the next part, at the last boundary, in an exception,
-- in undefined behaviour, or not at all.
pub data Step : Type 0 where
  next : Work → InStream → Step
  finished : Work → InStream → Step
  exception : Bytes → Work → InStream → Step
  undefined : Step
  endless : Step

-- `replace_last_copy(name, "[]", "")`
unfoldable pub without_brackets : Bytes → Bytes
without_brackets [] = []
without_brackets (c ∷ s) =
    if contains s (codes "[]")
    then c ∷ without_brackets s
    else if starts_with (c ∷ s) (codes "[]")
    then drop 1 s
    else c ∷ s

unfoldable pub is_array : Option Json → Bool
is_array (some (array es)) = true
is_array _ = false

-- A value that is there and no array becomes an array of itself.
unfoldable pub wrapped : Bytes → Option Json → Params → Params
unfolding set_param
wrapped key none ps = ps
wrapped key (some (array es)) ps = ps
wrapped key (some v) ps = set_param key (array (element v no_elements)) ps

-- The parameters behind a part with a value; `none` is an exception.
unfoldable pub put_value : Bytes → Bytes → Params → Option Params
unfolding without_brackets is_array wrapped set_param emplace_back
put_value name line ps =
    let key = without_brackets name in
    let ps1 = wrapped key (param key ps) ps in
    let old : Json = elim (param name ps) [ none ↦ null | some v ↦ v ] in
    if is_array (param key ps)
    then Option.map (λ v. set_param name v ps) (emplace_back (string line) old)
    else some (set_param name (string line) ps1)

-- `filebag_[name] = ...`: the file that was there is removed from the disk.
unfoldable pub remove_file : Bytes → List (Bytes × Bytes) → List (Bytes × Bytes)
remove_file path [] = []
remove_file path ((p, content) ∷ fs) =
    let rest = remove_file path fs in if beq p path then rest else (p, content) ∷ rest

unfoldable pub set_file : Bytes → File → List (Bytes × File) → List (Bytes × File)
set_file name f [] = (name, f) ∷ []
set_file name f ((k, g) ∷ fs) = if beq k name then (k, f) ∷ fs else (k, g) ∷ set_file name f fs

unfoldable pub file_at : Bytes → List (Bytes × File) → Option File
file_at name [] = none
file_at name ((k, g) ∷ fs) = if beq k name then some g else file_at name fs

unfoldable pub put_file : Bytes → File → Work → Work
unfolding set_file file_at remove_file
put_file name f w = record w {
  request = record w.request { filebag = set_file name f w.request.filebag };
  disk = elim (file_at name w.request.filebag) [
    | none ↦ w.disk
    | some old ↦ remove_file old.temp_path w.disk
  ];
}

-- The texts of the exceptions.
abbrev pub invalid_data : Bytes
invalid_data = codes "Invalid Multipart form data_"

-- `meta_data[key]`
abbrev pub meta_at : Bytes → List (Bytes × Bytes) → Option Bytes
meta_at = lookup beq

module _ (o : Outside) (boundary : Bytes) where
  abbrev pub boundary_end_data : Bytes
  boundary_end_data = codes "--" ++ (boundary ++ codes "--\r")

  -- A part with a value, behind the line of its names.
  unfoldable pub store_value : List (Bytes × Bytes) → Bytes → Work → InStream → Step
  unfolding lookup
  store_value meta value w s = elim (meta_at (codes "name") meta) [
    | none ↦ next w s
    | some name ↦ elim (put_value name value w.request.params) [
      | none ↦ exception o.type_error w s
      | some ps ↦ next (record w { request = record w.request { params = ps } }) s
    ]
  ]

  unfoldable pub read_value : List (Bytes × Bytes) → Bytes → Work → InStream → Step
  read_value meta line w s =
      let (blank, s1) = getline line s in
      let (value, s2) = getline blank s1 in
      if beq blank (codes "\r")
      then (if is_empty value
          then exception (o.what (codes "Invalid Multipart Form Data")) w s2
          else store_value meta (take (length value - 1) value) w s2)
      else exception (o.what (codes "Unexpected Line Data")) w s1

  -- A part with a file: the file is created, filled, and noted in the request.
  unfoldable pub store_file : List (Bytes × Bytes) → Bytes → Bytes → Bytes → Work → Copied → Step
  unfolding lookup
  store_file meta filename path mime_type w (copied content s) =
      let written = record w { disk = w.disk ++ (path, content) ∷ [] } in
      elim (meta_at (codes "name") meta) [
        | none ↦ next written s
        | some name ↦
            let f : File = record {
              temp_path = path;
              filename = filename;
              mime_type = mime_type;
            } in
            next (put_file name f written) s
      ]
  store_file meta filename path mime_type w Upload.undefined = undefined
  store_file meta filename path mime_type w out_of_fuel = endless

  abbrev pub new_path : Bytes → Work → Bytes
  new_path filename w = codes "./" ++ (o.uuid w.made ++ o.extension filename)

  unfoldable pub read_content :
      ℕ → List (Bytes × Bytes) → Bytes → Bytes → Bytes → Work → InStream → Step
  read_content fuel meta filename mime_type line w s =
      let path = new_path filename w in
      let w1 = record w { made = w.made + 1 } in
      let (blank, s1) = getline line s in
      if beq blank (codes "\r")
      then store_file meta filename path mime_type w1 (copy_file fuel boundary [] [] s1)
      else exception (o.what (codes "Unexpected Line Data"))
          (record w1 { disk = w1.disk ++ (path, []) ∷ [] }) s1

  -- The file exists, and is empty, when the line of its type is refused.
  unfoldable pub check_type : ℕ → List (Bytes × Bytes) → Bytes → Bytes → Work → InStream → Step
  check_type fuel meta filename type_line w s =
      let w1 = record w { made = w.made + 1; disk = w.disk ++ (new_path filename w, []) ∷ [] } in
      if is_empty type_line || beq type_line (codes "\r")
      then exception (o.what (codes "Form data was a file but no content type was specified")) w1 s
      else elim (parse_content_type o.ws type_line) [
        | none ↦ exception (o.what (codes "Multipart form data_ Content-Type parse failed!")) w1 s
        | some mime_type ↦ read_content fuel meta filename mime_type type_line w s
      ]

  unfoldable pub read_file : ℕ → List (Bytes × Bytes) → Bytes → Bytes → Work → InStream → Step
  read_file fuel meta filename line w s =
      let (type_line, s1) = getline line s in check_type fuel meta filename type_line w s1

  unfoldable pub choose_part : ℕ → Bytes → Work → InStream → Step
  unfolding lookup
  choose_part fuel meta_line w s = elim (parse_disposition o.ws meta_line) [
    | none ↦ exception (o.what (codes "Multipart form data_ meta parse failed!")) w s
    | some meta ↦ elim (meta_at (codes "filename") meta) [
      | none ↦ read_value meta meta_line w s
      | some filename ↦ read_file fuel meta filename meta_line w s
    ]
  ]

  unfoldable pub read_part : ℕ → Bytes → Work → InStream → Step
  read_part fuel line w s = let (meta_line, s1) = getline line s in choose_part fuel meta_line w s1

  -- One turn of the loop. Any line that is not empty passes for a boundary.
  unfoldable pub parse_part : ℕ → Work → InStream → Step
  parse_part fuel w s =
      let (line, s1) = getline [] s in
      if beq line boundary_end_data
      then finished w s1
      else if is_empty line
      then exception (o.what invalid_data) w s1
      else read_part fuel line w s1

  -- The loop, with `fuel` turns for each file and `turns` for itself.
  unfoldable pub parse_parts : ℕ → ℕ → Work → InStream → Step
  parse_parts fuel zero w s = endless
  parse_parts fuel (suc turns) w s = elim (s.eof) [
    | true ↦ finished w s
    | false ↦ elim (parse_part fuel w s) [
      | next w1 s1 ↦ parse_parts fuel turns w1 s1
      | finished w1 s1 ↦ finished w1 s1
      | exception text w1 s1 ↦ exception text w1 s1
      | undefined ↦ undefined
      | endless ↦ endless
    ]
  ]

  unfoldable pub parse_multipart_body : ℕ → Bytes → Work → Step
  parse_multipart_body fuel text w = parse_parts fuel (suc (length text)) w (opened text 0)
