-- ===== src/Contracts/Messages/Versions.antt =====
-- Tasks from a peer of a newer version of parser.proto.
use email_platform_services.Common.{
  ℕ, ◌+◌, ◌*◌, ◌/◌, ◌%◌, ◌≤◌, ◌<◌, ◌≡◌, refl, String, false, ◌==◌, none, List, [], ◌∷◌, All,
  Outcome, ok, arith,
}
use email_platform_services.Parser.Messages.{ParserTaskMessage}
use email_platform_services.Contracts.Wire.{Bytes, Writing, Reading, IsInt32, IsUint32}
use email_platform_services.Contracts.Codec.{
  ◌>>=◌, got, Case, chosen, decode, serialize, deserialize, string_field,
}
use email_platform_services.Contracts.Codec.Fields.{Writes-both}
use email_platform_services.Contracts.Codec.Values.{Writes-unknown_field}
use email_platform_services.Contracts.Codec.Reads.{◌&◌}
use email_platform_services.Contracts.Codec.Nested.{serialize-deserialize}
use email_platform_services.Contracts.Messages.{CommonMessages, parser_task, parser_task_encode}
use email_platform_services.Contracts.Messages.Ends.{HonestCommon, parser_task-AllSettle}
use email_platform_services.Contracts.Messages.RoundTrip.{parser_task-Writes}

-- The tag of a text field.
abbrev pub text_tag : ℕ → ℕ
text_tag number = 8 * number + 2

chosen-none :
    {M Reader : Type 0} (number : ℕ) (cases : List (Case M Reader))
    → All (λ c. c.number < number) cases
    → chosen (text_tag number) cases ≡ none
unfolding chosen
chosen-none number [] below = refl
chosen-none number (c ∷ cases) (here, later) =
    let other : c.number == text_tag number / 8 ≡ false = ground arith in
    rw (other) (chosen-none number cases later)

module _ {writing : Writing} {reading : Reading writing} (common : CommonMessages reading) where
  -- `ParserTask.encode` of a version whose task has one more text.
  abbrev pub newer_task_encode :
      ℕ → String → ParserTaskMessage → writing.Writer → Outcome writing.Writer
  newer_task_encode number text task w =
      parser_task_encode common task w >>= string_field writing (text_tag number) text

  -- A task from a peer whose `ParserTask` has one more text, under any number from 12 on, is
  -- decoded to the same task without it, when its counts fit into 32 bits.
  pub newer_task_read_back :
      (honest : HonestCommon common) (number : ℕ) (text : String) (task : ParserTaskMessage)
      → 12 ≤ number
      → IsUint32 (text_tag number)
      → IsInt32 task.total_found
      → IsInt32 task.total_parsed
      → (bytes : Bytes) × (serialize writing (newer_task_encode number text) task ≡ ok bytes)
        × (deserialize reading (decode reading (parser_task common)) bytes ≡ got task)
  newer_task_read_back honest number text task new fits found parsed =
      let below : (n : ℕ) → n < 12 → n < number = λ n small. omega arith in
      let unknown : chosen (text_tag number) (parser_task common).cases ≡ none =
        chosen-none number (parser_task common).cases (
          below 1 (omega arith)
          & below 2 (omega arith)
          & below 3 (omega arith)
          & below 4 (omega arith)
          & below 5 (omega arith)
          & below 6 (omega arith)
          & below 7 (omega arith)
          & below 8 (omega arith)
          & below 9 (omega arith)
          & below 10 (omega arith)
          & below 11 (omega arith)
          & tt) in
      let text_type : text_tag number % 8 ≡ 2 = omega arith in
      let total = parser_task-AllSettle common honest in
      let writes =
        Writes-both reading _ (parser_task_encode common task) _ _ _ _
          (parser_task-Writes common honest task found parsed)
          (Writes-unknown_field reading (parser_task common).cases total (text_tag number) text task
            fits text_type unknown) in
      let (sent, read) =
        serialize-deserialize reading (parser_task common) (newer_task_encode number text) task
          writes in
      (writes.bytes, sent, read)
