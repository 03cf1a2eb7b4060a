-- ===== src/Gateway/Pipeline/Codes.antt =====
-- The status of a pipeline response.
use voxplatform.Prelude.{
  [], ℕ, ◌≡◌, refl, inl, inr, String, Bool, true, false, Option, none, some, List, if◌then◌else◌,
}
use voxplatform.Gateway.Wav.{Bytes}
use voxplatform.Gateway.Http.{Result, ok, err, IsTraced, write_error}
use voxplatform.Gateway.Proxy.{Form, Upload}
use voxplatform.Gateway.Pipeline.{
  Strings, Services, Clock, Run, contains, run_stt, log_event, finish, after_stt, run_stages,
  parse_stages, started, with_audio, with_upload, handle_pipeline,
}

module _ {F : Type 0} (services : Services F) (clock : Clock) (strings : Strings) (id : String)
    (created_at : ℕ) where
  after_stt-IsTraced :
      (enabled : List String) (filename : String) (audio : Bytes) (run : Run F) (r : Result String)
      → run.response.request_id ≡ id
      → IsTraced id (after_stt services clock enabled filename audio run r).0
  unfolding write_error finish
  after_stt-IsTraced enabled filename audio run (err e) h = (inr (inr (inl refl)), h)
  after_stt-IsTraced enabled filename audio run (ok transcript) h = refl

  run_stages-IsTraced :
      (form : Form) (enabled : List String) (filename : String) (audio : Bytes) (run : Run F)
      → run.response.request_id ≡ id
      → IsTraced id (run_stages services clock form enabled filename audio run).0
  unfolding run_stages finish log_event
  run_stages-IsTraced form enabled filename audio run h = go (contains enabled "stt")
    where
      go :
          (b : Bool)
          → IsTraced id
              (if b
                then after_stt services clock enabled filename audio
                    (log_event clock "stage.start" "stt" [] run)
                    (run_stt services filename audio (form.value "model") (form.value "language"))
                else finish services clock enabled filename audio run).0
      go true =
          after_stt-IsTraced enabled filename audio (log_event clock "stage.start" "stt" [] run) _ h
      go false = refl

  with_audio-IsTraced :
      (form : Form) (filename : String) (r : Result Bytes)
      → IsTraced id (with_audio services clock strings id created_at form filename r).0
  unfolding write_error log_event
  with_audio-IsTraced form filename (err e) = (inr (inl refl), refl)
  with_audio-IsTraced form filename (ok audio) =
      run_stages-IsTraced form (parse_stages strings (form.value "stages")) filename audio
        (started services clock id created_at (parse_stages strings (form.value "stages")) filename)
        refl

  with_upload-IsTraced :
      (form : Form) (file : Option Upload)
      → IsTraced id (with_upload services clock strings id created_at form file).0
  unfolding write_error
  with_upload-IsTraced form none = (inl refl, refl)
  with_upload-IsTraced form (some file) = with_audio-IsTraced form file.filename file.audio

  pub handle_pipeline-IsTraced :
      (form : Option Form)
      → IsTraced id (handle_pipeline services clock strings id created_at form).0
  unfolding handle_pipeline write_error
  handle_pipeline-IsTraced none = (inl refl, refl)
  handle_pipeline-IsTraced (some form) = with_upload-IsTraced form form.file
