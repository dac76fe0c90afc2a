-- ===== src/Import/Uploading.antt =====
-- What one upload sends to a server that accepts every request.
use codex_memory.Prelude.{
  ℕ, suc, ◌≡◌, refl, ap, sym, ◌∙◌, Bool, String, ◌<>◌, List, [], ◌∷◌, ◌++◌, append_assoc,
  append-nil, length, ok,
}
use codex_memory.Prelude.Text.{decimal}
use codex_memory.Js.{Runtime, Value, str, obj, Fields, end, field, get}
use codex_memory.Api.{Request, admin_post, admin_put}
use codex_memory.Pages.{member}
use codex_memory.Pages.Calls.{
  Server, Run, Calls, pure, lift, update, send, ◌>>=◌, ◌>>◌, step_ok, then_ok, lift_ok, send_ok,
}
use codex_memory.Import.Files.{chunk_chars}
use codex_memory.Import.{Entry, completed, uploading}
use codex_memory.Import.Upload.{
  Platform, Content, content_parts, read_import_content, part_payload, put_body, count, batch_path,
  upload_path, put_parts, part_progress, upload_file_by_chunks,
}

module _ (platform : Platform) ⦃rt : Runtime⦄ where
  open rt use {Number}

  -- A server that accepts every request, each with its answer.
  abbrev pub accepting : (List (Request Number) → Value Number) → Server Number
  accepting answers log = ok (answers log)

  -- The request of the part of this index, and those of all parts from it on.
  abbrev pub put_request :
      String
      → Value Number
      → Value Number
      → Value Number
      → Entry
      → Bool
      → ℕ
      → ℕ
      → List ℕ
      → Request Number
  put_request token batch_id upload_id source_type entry binary total index part =
      admin_put token (upload_path batch_id upload_id <> ("/parts/" <> decimal index))
        (obj (put_body index total entry source_type (part_payload platform binary part))) end

  abbrev pub put_requests :
      String
      → Value Number
      → Value Number
      → Value Number
      → Entry
      → Bool
      → ℕ
      → ℕ
      → List (List ℕ)
      → List (Request Number)
  put_requests token batch_id upload_id source_type entry binary total index [] = []
  put_requests token batch_id upload_id source_type entry binary total index (part ∷ parts) =
      put_request token batch_id upload_id source_type entry binary total index part
      ∷ put_requests token batch_id upload_id source_type entry binary total (suc index) parts

  abbrev pub start_request : String → Value Number → Entry → ℕ → Request Number
  start_request token batch_id entry parts =
      admin_post token (batch_path batch_id <> "/uploads")
        (obj (field "source_name" (str entry.name) (field "total_parts" (count parts) end))) end

  abbrev pub complete_request : String → Value Number → Value Number → Request Number
  complete_request token batch_id upload_id =
      admin_post token (upload_path batch_id upload_id <> ":complete") (obj end) end

  module _ (token : String) (answers : List (Request Number) → Value Number) where
    put_parts-sent :
        (batch_id upload_id source_type : Value Number) (entry : Entry) (binary : Bool)
        (total index : ℕ) (parts : List (List ℕ)) (run : Run Number Entry)
        → ((put_parts platform
              (accepting answers)
              token
              batch_id
              upload_id
              source_type
              entry
              binary
              total
              index
              parts
              run).0
            ≡ ok tt)
          × ((put_parts platform
                (accepting answers)
                token
                batch_id
                upload_id
                source_type
                entry
                binary
                total
                index
                parts
                run).1.sent
              ≡ run.sent
                ++ put_requests token batch_id upload_id source_type entry binary total index parts)
    unfolding put_parts ◌>>=◌ ◌>>◌ send update pure
    put_parts-sent batch_id upload_id source_type entry binary total index [] run =
        (refl, sym (append-nil run.sent))
    put_parts-sent batch_id upload_id source_type entry binary total index (part ∷ parts) run =
        let request =
          put_request token batch_id upload_id source_type entry binary total index part in
        let rest =
          put_parts-sent batch_id upload_id source_type entry binary total (suc index) parts
            (record {
              sent = run.sent ++ request ∷ [];
              state = record run.state { progress = part_progress index total };
            }) in
        (
          rest.0,
          rest.1
              ∙ append_assoc run.sent (request ∷ []) (
                  put_requests token batch_id upload_id source_type entry binary total (suc index)
                    parts),
        )

    -- The requests of one upload.
    abbrev pub upload_requests :
        Value Number
        → Value Number
        → Value Number
        → Entry
        → Bool
        → List (List ℕ)
        → List (Request Number)
    upload_requests batch_id upload_id source_type entry binary parts =
        put_requests token batch_id upload_id source_type entry binary (length parts) 0 parts
        ++ complete_request token batch_id upload_id ∷ []

    abbrev pub parts_of : Content → List (List ℕ)
    parts_of content = content_parts chunk_chars content.units

    -- The run when the parts begin to be sent, and the program from there on.
    abbrev sending : Value Number → Entry → Content → Run Number Entry → Run Number Entry
    sending batch_id entry content run = record {
      sent = run.sent ++ start_request token batch_id entry (length (parts_of content)) ∷ [];
      state = record run.state { status = uploading; progress = 2; error = "" };
    }

    send_parts :
        Value Number
        → Value Number
        → Value Number
        → Entry
        → Bool
        → List (List ℕ)
        → Calls Number Entry (Unit {0})
    send_parts batch_id upload_id source_type entry binary parts =
        put_parts platform (accepting answers) token batch_id upload_id source_type entry binary
          (length parts) 0 parts
        >> (send (accepting answers) (complete_request token batch_id upload_id)
            >> update (λ (e : Entry). record e { status = completed; progress = 100 }))

    upload_begins :
        (batch_id : Value Number) (entry : Entry) (content : Content) (reply body : Fields Number)
        (run : Run Number Entry)
        → read_import_content platform entry.file ≡ ok content
        → answers (run.sent ++ start_request token batch_id entry (length (parts_of content)) ∷ [])
          ≡ obj reply
        → get "data" reply ≡ obj body
        → upload_file_by_chunks platform (accepting answers) token batch_id entry run
          ≡ send_parts batch_id
              (get "upload_id" body)
              (get "source_type" body)
              entry
              content.binary
              (parts_of content)
              (sending batch_id entry content run)
    unfolding upload_file_by_chunks send_parts update send lift member
    upload_begins batch_id entry content reply body run readable accepted found =
        then_ok _ _ run tt _ refl
        ∙ step_ok _ _ _ content _
            (lift_ok (read_import_content platform entry.file) content _ readable)
        ∙ step_ok _ _ _ (obj reply) _ (send_ok (accepting answers) _ (obj reply) _ (ap ok accepted))
        ∙ step_ok _ _ _ (obj body) _ (lift_ok (ok (get "data" reply)) (obj body) _ (ap ok found))
        ∙ step_ok _ _ _ (get "upload_id" body) _ refl
        ∙ step_ok _ _ _ (get "source_type" body) _ refl
        ∙ then_ok _ _ _ tt _ refl

    send_parts-ends :
        (batch_id upload_id source_type : Value Number) (entry : Entry) (binary : Bool)
        (parts : List (List ℕ)) (run : Run Number Entry)
        → let r = send_parts batch_id upload_id source_type entry binary parts run in
          (r.0 ≡ ok tt)
          × (r.1.sent
              ≡ run.sent ++ upload_requests batch_id upload_id source_type entry binary parts)
          × (r.1.state.status ≡ completed)
          × (r.1.state.progress ≡ 100)
    unfolding send_parts ◌>>=◌ ◌>>◌ send update
    send_parts-ends batch_id upload_id source_type entry binary parts run =
        let puts =
          put_requests token batch_id upload_id source_type entry binary (length parts) 0 parts in
        let (well, sent) =
          put_parts-sent batch_id upload_id source_type entry binary (length parts) 0 parts run in
        let run' =
          (put_parts platform (accepting answers) token batch_id upload_id source_type entry binary
            (length parts) 0 parts run).1 in
        rw
          (then_ok
            (put_parts platform (accepting answers) token batch_id upload_id source_type entry
              binary (length parts) 0 parts)
            (send (accepting answers) (complete_request token batch_id upload_id)
              >> update (λ (e : Entry). record e { status = completed; progress = 100 }))
            run tt run' (ap (λ r. (r, run')) well))
          (
            refl,
            ap (λ xs. xs ++ complete_request token batch_id upload_id ∷ []) sent
                ∙ append_assoc run.sent puts (complete_request token batch_id upload_id ∷ []),
            refl,
            refl,
          )

    abbrev pub Accepted : Value Number → Entry → Content → Fields Number → Run Number Entry → Type 0
    Accepted batch_id entry content body run =
        let r = upload_file_by_chunks platform (accepting answers) token batch_id entry run in
        (r.0 ≡ ok tt)
        × (r.1.sent
            ≡ (run.sent ++ start_request token batch_id entry (length (parts_of content)) ∷ [])
              ++ upload_requests batch_id (get "upload_id" body) (get "source_type" body) entry
                  content.binary (parts_of content))
        × (r.1.state.status ≡ completed)
        × (r.1.state.progress ≡ 100)

    -- Where the file can be read and the server accepts every request, with an upload id in its answer to
    -- the first, one upload sends that first request, then every part once, in the order of the content and
    -- numbered from 0, then the request that completes the upload; the entry ends as completed at 100
    -- percent.
    pub upload_complete :
        (batch_id : Value Number) (entry : Entry) (content : Content) (reply body : Fields Number)
        (run : Run Number Entry)
        → read_import_content platform entry.file ≡ ok content
        → answers (run.sent ++ start_request token batch_id entry (length (parts_of content)) ∷ [])
          ≡ obj reply
        → get "data" reply ≡ obj body
        → Accepted batch_id entry content body run
    upload_complete batch_id entry content reply body run readable accepted found =
        rw (upload_begins batch_id entry content reply body run readable accepted found) (
          send_parts-ends batch_id (get "upload_id" body) (get "source_type" body) entry
            content.binary (parts_of content) (sending batch_id entry content run))
