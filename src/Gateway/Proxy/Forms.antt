-- ===== src/Gateway/Proxy/Forms.antt =====
-- What Whisper is sent, and what becomes of its answer.
use voxplatform.Prelude.{
  inr, inl, ℕ, ◌≡◌, ◌≢◌, ◌↔◌, refl, ap, String, Bool, true, false, Option, none, some, List, [],
  ◌∷◌, arith, if◌then◌else◌, ◌=s◌, ◌+s◌, ◌==◌, eq_iff,
}
use voxplatform.Gateway.Wav.{Bytes}
use voxplatform.Gateway.Http.{
  IsTraced, Result, ok, err, ApiError, Response, failure, json, write_error, unreadable, content,
  HttpReply, not_built, not_sent, answered, wrap,
}
use voxplatform.Gateway.Proxy.{
  Part, file_part, text_part, TranscriptionRequest, Upload, Whisper, Form, Times,
  transcription_form, transcription_result, transcribe, send_audio, respond, with_file,
  TranscriptionResponse, transcription_request, handle_transcribe,
}

-- The value of a text field, empty if the form has none of the name.
abbrev pub form_value : String → List Part → String
form_value name [] = ""
form_value name (file_part n f a ∷ parts) = form_value name parts
form_value name (text_part n v ∷ parts) = if n =s name then v else form_value name parts

-- The files of a form, with their field names.
abbrev pub form_files : List Part → List (String × String × Bytes)
form_files [] = []
form_files (file_part n f a ∷ parts) = (n, f, a) ∷ form_files parts
form_files (text_part n v ∷ parts) = form_files parts

-- The form has a text field of the name.
abbrev pub has_field : String → List Part → Bool
has_field name [] = false
has_field name (file_part n f a ∷ parts) = has_field name parts
has_field name (text_part n v ∷ parts) = if n =s name then true else has_field name parts

abbrev pub read_request : List Part → TranscriptionRequest
read_request parts = record {
  model = form_value "model" parts;
  language = form_value "language" parts;
  response_format = form_value "response_format" parts;
}

-- A reader of the form that Transcribe writes gets the file with its name and its bytes, and the
-- request, where a language or a response format is written exactly if it is not empty.
pub read_transcription_form :
    (filename : String) (audio : Bytes) (req : TranscriptionRequest)
    → (form_files (transcription_form filename audio req) ≡ ("file", filename, audio) ∷ [])
      × (read_request (transcription_form filename audio req) ≡ req)
      × ((has_field "language" (transcription_form filename audio req) ≡ true)
          ↔ (req.language ≢ ""))
      × ((has_field "response_format" (transcription_form filename audio req) ≡ true)
          ↔ (req.response_format ≢ ""))
unfolding transcription_form
read_transcription_form filename audio req = (
  ground arith,
  λ i. record { model = req.model; language = language_back i; response_format = format_back i },
  ground (arith, eq_iff req.language ""),
  ground (arith, eq_iff req.response_format ""),
)
  where
    language_back : form_value "language" (transcription_form filename audio req) ≡ req.language
    language_back = ground (arith, eq_iff req.language "")

    format_back :
        form_value "response_format" (transcription_form filename audio req) ≡ req.response_format
    format_back = ground (arith, eq_iff req.response_format "")

wrap_ok_iff : (prefix text : String) (r : Result String) → (wrap prefix r ≡ ok text) ↔ (r ≡ ok text)
wrap_ok_iff prefix text (ok a) = ((λ h. h), λ h. h)
wrap_ok_iff prefix text (err e) = ((λ h. cc), λ h. cc)

ok_of_status :
    (decode : String → Result String) (status : ℕ) (body text otherwise : String) (b : Bool)
    → (status == 200) ≡ b
    → (if b then wrap "parsing response: " (decode body) else err otherwise) ≡ ok text
    → (status ≡ 200) × (decode body ≡ ok text)
ok_of_status decode status body text otherwise true e h =
    (ground arith, (wrap_ok_iff "parsing response: " text (decode body)).0 h)
ok_of_status decode status body text otherwise false e h = cc

ok_of_answer :
    (decode : String → Result String) (text body : String) (r : HttpReply)
    → r ≡ answered 200 (content body)
    → decode body ≡ ok text
    → transcription_result decode r ≡ ok text
unfolding transcription_result
ok_of_answer decode text body r e d =
    rw (e) ((wrap_ok_iff "parsing response: " text (decode body)).1 d)

transcription_result_ok_iff :
    (decode : String → Result String) (text : String) (r : HttpReply)
    → (transcription_result decode r ≡ ok text)
      ↔ ((body : String) × (r ≡ answered 200 (content body)) × (decode body ≡ ok text))
unfolding transcription_result
transcription_result_ok_iff decode text (not_built e) = ((λ h. cc), λ h. cc)
transcription_result_ok_iff decode text (not_sent e) = ((λ h. cc), λ h. cc)
transcription_result_ok_iff decode text (answered status (unreadable e)) = ((λ h. cc), λ h. cc)
transcription_result_ok_iff decode text (answered status (content body)) = (
  λ h.
      let p = ok_of_status decode status body text _ (status == 200) refl h in
      (body, ap (λ n. answered n (content body)) p.0, p.1),
  λ (x, e, d). ok_of_answer decode text x _ e d,
)

module _ (whisper : Whisper) where
  -- Whisper answered the file with status 200 and a body that decodes to the text.
  abbrev pub IsTranscribed : Upload → TranscriptionRequest → String → Type 0
  IsTranscribed file req text =
      (audio : Bytes) × (body : String) × (file.audio ≡ ok audio)
      × (whisper.post_form (whisper.base_url +s "/v1/audio/transcriptions")
            (transcription_form file.filename audio req)
          ≡ answered 200 (content body))
      × (whisper.decode_text body ≡ ok text)

  transcribe-IsTranscribed :
      (file : Upload) (req : TranscriptionRequest) (text : String) (r : Result Bytes)
      → file.audio ≡ r
      → (send_audio whisper file.filename req r ≡ ok text) ↔ IsTranscribed file req text
  transcribe-IsTranscribed file req text (err e) h = ((λ x. cc), λ (a, b, p, q, d). cc)
  transcribe-IsTranscribed file req text (ok audio) h =
      let iff = transcription_result_ok_iff whisper.decode_text text (
        whisper.post_form (whisper.base_url +s "/v1/audio/transcriptions")
          (transcription_form file.filename audio req)) in
      (λ x. let p = iff.0 x in (audio, p.0, h, p.1, p.2), λ (a, b, p, q, d). iff.1 (b, cc, d))

  -- Transcribe gives a text exactly if the file could be read, Whisper answered the form made of
  -- it with status 200, and the body of the answer decodes to the text.
  pub transcribe_ok_iff :
      (file : Upload) (req : TranscriptionRequest) (text : String)
      → (transcribe whisper file req ≡ ok text) ↔ IsTranscribed file req text
  unfolding transcribe
  transcribe_ok_iff file req text = transcribe-IsTranscribed file req text file.audio refl

-- What a transcription request is answered, by its cause.
pub data Handled (whisper : Whisper) (request_id : String) (times : Times)
    : Option Form → Response TranscriptionResponse → Type 0 where
  unparsed :
      (error : ApiError)
      → error.code ≡ "file_too_large"
      → error.request_id ≡ request_id
      → Handled whisper request_id times none (failure 400 error)
  fileless :
      (form : Form) (error : ApiError)
      → form.file ≡ none
      → error.code ≡ "file_required"
      → error.request_id ≡ request_id
      → Handled whisper request_id times (some form) (failure 400 error)
  failed :
      (form : Form) (file : Upload) (reason : String) (error : ApiError)
      → form.file ≡ some file
      → transcribe whisper file (transcription_request form) ≡ err reason
      → error.code ≡ "backend_error"
      → error.message ≡ "whisper backend error: " +s reason
      → error.request_id ≡ request_id
      → Handled whisper request_id times (some form) (failure 502 error)
  served :
      (form : Form) (file : Upload) (r : TranscriptionResponse)
      → form.file ≡ some file
      → IsTranscribed whisper file (transcription_request form) r.text
      → r.model ≡ (transcription_request form).model
      → r.request_id ≡ request_id
      → Handled whisper request_id times (some form) (json 200 r)

module _ (whisper : Whisper) (request_id : String) (times : Times) where
  respond-Handled :
      (form : Form) (file : Upload) (r : Result String)
      → form.file ≡ some file
      → transcribe whisper file (transcription_request form) ≡ r
      → Handled whisper request_id times
          (some form)
          (respond whisper request_id times (transcription_request form) r)
  unfolding write_error
  respond-Handled form file (err e) hf h = failed form file e _ hf h refl refl refl
  respond-Handled form file (ok text) hf h =
      served form file _ hf ((transcribe_ok_iff whisper file (transcription_request form) text).0 h)
        refl refl

  with_file-Handled :
      (form : Form) (file : Option Upload)
      → form.file ≡ file
      → Handled whisper request_id times (some form) (with_file whisper request_id times form file)
  unfolding write_error
  with_file-Handled form none h = fileless form _ h refl refl
  with_file-Handled form (some file) h = respond-Handled form file _ h refl

  -- Every transcription request is answered by its cause: 400 if the form does not parse or has
  -- no file, 502 with Transcribe's reason if it fails, and otherwise 200 with the text that
  -- Whisper gave for this file; an error and a success both carry the request id.
  pub handle_transcribe-Handled :
      (form : Option Form)
      → Handled whisper request_id times form (handle_transcribe whisper request_id times form)
  unfolding handle_transcribe
  handle_transcribe-Handled none = unparsed _ refl refl
  handle_transcribe-Handled (some form) = with_file-Handled form form.file refl

  traced :
      (form : Option Form) (r : Response TranscriptionResponse)
      → Handled whisper request_id times form r
      → IsTraced request_id r
  traced none r (Handled.unparsed e c i) = (inl refl, i)
  traced form r (Handled.fileless f e h c i) = (inl refl, i)
  traced form r (Handled.failed f file reason e h t c m i) = (inr (inr (inl refl)), i)
  traced form r (Handled.served f file a h t m i) = refl

  pub handle_transcribe-IsTraced :
      (form : Option Form) → IsTraced request_id (handle_transcribe whisper request_id times form)
  handle_transcribe-IsTraced form = traced form _ (handle_transcribe-Handled form)
