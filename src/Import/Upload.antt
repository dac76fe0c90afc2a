-- ===== src/Import/Upload.antt =====
-- apps/admin-web/src/views/ImportView.vue: reading a file and sending it in parts.
use codex_memory.Prelude.{
  ℕ, zero, suc, ◌+◌, ◌-◌, ◌*◌, Bool, true, false, String, ◌<>◌, Option, none, some, List, [], ◌∷◌,
  ◌++◌, if◌then◌else◌, ltb, nat_eq, length, take, drop, Result, ok, throw,
}
use codex_memory.Prelude.Text.{decimal}
use codex_memory.Js.{Runtime, Value, str, obj, Fields, end, field, set, to_text}
use codex_memory.Api.{admin_post, admin_put}
use codex_memory.Pages.{Cause, new_error, member, literal}
use codex_memory.Pages.Calls.{Server, Calls, pure, lift, update, send, ◌>>=◌, ◌>>◌}
use codex_memory.Import.Files.{File, is_binary_import, chunk_chars}
use codex_memory.Import.{Entry, reading, uploading, completed, round_div}

-- What the browser does: decoding UTF-8, `none` where the bytes are no UTF-8; `btoa`; and the text that
-- has the given code units. Contents are lists of code units.
pub record Platform : Type 0 where
  pub decode_utf8 : List ℕ → Option (List ℕ)
  pub btoa : List ℕ → List ℕ
  pub unit_text : List ℕ → String

pub record Content : Type 0 where
  pub binary : Bool
  pub units : List ℕ

-- `content.slice(from, to)`
abbrev pub slice {ℓ} : {A : Type ℓ} → ℕ → ℕ → List A → List A
slice from to xs = take (to - from) (drop from xs)

-- `for (let index = 0; index < content.length; index += size)` over slices, by fuel: the length of the
-- content is enough where the size is positive.
unfoldable pub slices {ℓ} : {A : Type ℓ} → ℕ → ℕ → ℕ → List A → List (List A)
slices zero size index content = []
slices (suc fuel) size index content =
    let rest = slices fuel size (index + size) content in
    if ltb index (length content) then slice index (index + size) content ∷ rest else []

abbrev pub joined {ℓ} : {A : Type ℓ} → List (List A) → List A
joined [] = []
joined (part ∷ parts) = part ++ joined parts

-- The binary string that `bytesToBase64` builds, and its Base64 form.
unfoldable pub binary_string : List ℕ → List ℕ
unfolding slices
binary_string bytes = joined (slices (length bytes) 32768 0 bytes)

-- The slices of a content, at least one.
unfoldable pub content_parts : ℕ → List ℕ → List (List ℕ)
unfolding slices
content_parts size content = elim (slices (length content) size 0 content) [
  | [] ↦ [] ∷ []
  | part ∷ parts ↦ part ∷ parts
]

-- `Math.max(5, Math.round(((index + 1) / parts.length) * 92))`
unfoldable pub part_progress : ℕ → ℕ → ℕ
part_progress index total =
    let done = round_div (suc index * 92) total in if ltb done 5 then 5 else done

module _ ⦃rt : Runtime⦄ where
  open rt use {Number}

  abbrev pub count : ℕ → Value Number
  count n = literal (decimal n)

  abbrev pub batch_path : Value Number → String
  batch_path batch_id = "/import-batches/" <> to_text batch_id

  abbrev pub upload_path : Value Number → Value Number → String
  upload_path batch_id upload_id = batch_path batch_id <> ("/uploads/" <> to_text upload_id)

  -- The body of the part of this index: the first also names the file.
  unfoldable pub put_body : ℕ → ℕ → Entry → Value Number → Fields Number → Fields Number
  unfolding set
  put_body index total entry source_type payload =
      if nat_eq index 0
      then set "source_type" source_type
          (set "source_name" (str entry.name) (set "total_parts" (count total) payload))
      else payload

module _ (platform : Platform) where
  open platform use {decode_utf8, btoa, unit_text}

  unfoldable pub bytes_to_base64 : List ℕ → List ℕ
  unfolding binary_string
  bytes_to_base64 bytes = btoa (binary_string bytes)

  decoded : Option (List ℕ) → Result Cause Content
  decoded none = throw (new_error "文本文件必须使用 UTF-8 编码")
  decoded (some units) = ok (record { binary = false; units = units })

  module _ ⦃rt : Runtime⦄ where
    open rt use {Number}

    -- A file that cannot be read rejects with the browser's own error.
    unfoldable pub read_import_content : File → Result Cause Content
    unfolding is_binary_import decoded bytes_to_base64
    read_import_content file = elim file.bytes [
      | none ↦ throw (new_error "The requested file could not be read")
      | some bytes ↦
          if is_binary_import file
          then ok (record { binary = true; units = bytes_to_base64 bytes })
          else decoded (decode_utf8 bytes)
    ]

    unfoldable pub part_payload : Bool → List ℕ → Fields Number
    part_payload binary units =
        field (if binary then "content_base64" else "content") (str (unit_text units)) end

    module _ (server : Server Number) (token : String) where
      -- `for (let index = 0; index < parts.length; index += 1)`, from this index on.
      unfoldable pub put_parts :
          Value Number
          → Value Number
          → Value Number
          → Entry
          → Bool
          → ℕ
          → ℕ
          → List (List ℕ)
          → Calls Number Entry (Unit {0})
      unfolding part_payload put_body part_progress decimal to_text admin_put
      put_parts batch_id upload_id source_type entry binary total index [] = pure tt
      put_parts batch_id upload_id source_type entry binary total index (part ∷ parts) = do
        send server (
            admin_put token (upload_path batch_id upload_id <> ("/parts/" <> decimal index))
              (obj (put_body index total entry source_type (part_payload binary part))) end)
        update (λ (e : Entry). record e { progress = part_progress index total })
        put_parts batch_id upload_id source_type entry binary total (suc index) parts

      -- Sending one file. The calls write the entry of the file.
      unfoldable pub upload_file_by_chunks : Value Number → Entry → Calls Number Entry (Unit {0})
      unfolding read_import_content content_parts put_parts decimal to_text admin_post member
      upload_file_by_chunks batch_id entry = do
        update (λ (e : Entry). record e { status = reading; progress = 2; error = "" })
        content ← lift (read_import_content entry.file)
        let parts = content_parts chunk_chars content.units
        started ← send server (
            admin_post token (batch_path batch_id <> "/uploads")
              (obj (
                field "source_name" (str entry.name)
                  (field "total_parts" (count (length parts)) end)))
              end)
        body ← lift (member "data" started)
        upload_id ← lift (member "upload_id" body)
        source_type ← lift (member "source_type" body)
        update (λ (e : Entry). record e { status = uploading })
        put_parts batch_id upload_id source_type entry content.binary (length parts) 0 parts
        send server (admin_post token (upload_path batch_id upload_id <> ":complete") (obj end) end)
        update (λ (e : Entry). record e { status = completed; progress = 100 })
