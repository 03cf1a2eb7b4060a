-- ===== src/Gateway/Proxy/Tests.antt =====
-- A recording of three bytes, on a Whisper that answers any form.
use voxplatform.Prelude.{◌≡◌, some, [], ◌∷◌, ◌=s◌, if◌then◌else◌}
use voxplatform.Gateway.Http.{ok, content, answered}
use voxplatform.Gateway.Proxy.{
  TranscriptionRequest, Upload, Whisper, Form, Times, default_model, transcription_form,
  handle_transcribe,
}
use voxplatform.Gateway.Proxy.Forms.{
  has_field, form_files, read_request, read_transcription_form, Handled, handle_transcribe-Handled,
}
use voxplatform.Prelude.{true, ◌↔◌, ◌≢◌}

abbrev recording : Upload
recording = record { filename = "a.wav"; audio = ok (1 ∷ 2 ∷ 3 ∷ []) }

abbrev english : TranscriptionRequest
english = record { model = default_model; language = "en"; response_format = "" }

abbrev echo : Whisper
echo = record {
  base_url = "http://whisper";
  get = λ url. answered 200 (content "");
  post_form = λ url parts. answered 200 (content "hello");
  decode_text = λ body. ok body;
}

abbrev english_form : Form
english_form = record {
  file = some recording;
  value = λ name. if name =s "language" then "en" else "";
}

read_transcription_form_example :
    (form_files (transcription_form "a.wav" (1 ∷ 2 ∷ 3 ∷ []) english)
      ≡ ("file", "a.wav", 1 ∷ 2 ∷ 3 ∷ []) ∷ [])
    × (read_request (transcription_form "a.wav" (1 ∷ 2 ∷ 3 ∷ []) english) ≡ english)
    × ((has_field "language" (transcription_form "a.wav" (1 ∷ 2 ∷ 3 ∷ []) english) ≡ true)
        ↔ (english.language ≢ ""))
    × ((has_field "response_format" (transcription_form "a.wav" (1 ∷ 2 ∷ 3 ∷ []) english) ≡ true)
        ↔ (english.response_format ≢ ""))
read_transcription_form_example = read_transcription_form "a.wav" (1 ∷ 2 ∷ 3 ∷ []) english

abbrev noon : Times
noon = record { created_at = 12; seconds = 1 }

handle_transcribe-Handled_example :
    Handled echo "r1" noon
      (some english_form)
      (handle_transcribe echo "r1" noon (some english_form))
handle_transcribe-Handled_example = handle_transcribe-Handled echo "r1" noon (some english_form)
