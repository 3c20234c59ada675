-- ===== src/Frames/Totality.antt =====
-- rust/crates/h2ts-client/src/frames.rs: no input makes the parser index out of bounds.
use h2ts.Common.{
  ℕ, zero, suc, ◌*◌, ◌/◌, ◌≤◌, ◌≢◌, refl, if◌then◌else◌, Option, none, Bool, true, false, List, [],
  ◌∷◌, arith, length,
}
use h2ts.Errors.{H2Error, Outcome, ok, err, panic}
use h2ts.Frames.Types.{Frame, Settings, no_settings}
use h2ts.Frames.Parse.{
  parse_data, read_pad_length, read_optional_priority, read_fragment, parse_headers, parse_priority,
  parse_rst_stream, read_parameters, parse_settings, parse_push_promise, parse_ping, parse_goaway,
  parse_window_update, parse_continuation, parse_payload, known,
}

parse_data-ne-panic : (flags id : ℕ) (payload : List ℕ) → parse_data flags id payload ≢ panic
unfolding parse_data
parse_data-ne-panic flags id [] = ground arith
parse_data-ne-panic flags id (a ∷ r) = ground arith

read_fragment-ne-panic :
    (r : List ℕ) (len overhead : ℕ) (e : H2Error) → read_fragment r len overhead e ≢ panic
unfolding read_fragment
read_fragment-ne-panic r len overhead e = ground arith

read_parameters-ne-panic :
    (n : ℕ) (s : Settings) (r : List ℕ) → 6 * n ≤ length r → read_parameters n s r ≢ panic
unfolding read_parameters
read_parameters-ne-panic zero s r h = ground arith
read_parameters-ne-panic (suc n) s (a ∷ b ∷ c ∷ d ∷ e ∷ f ∷ r) h =
    read_parameters-ne-panic n _ r (omega arith)
read_parameters-ne-panic (suc n) s _ h = absurd (omega arith)

parse_priority-ne-panic : (id : ℕ) (payload : List ℕ) → parse_priority id payload ≢ panic
unfolding parse_priority
parse_priority-ne-panic id payload = ground arith

parse_rst_stream-ne-panic : (id : ℕ) (payload : List ℕ) → parse_rst_stream id payload ≢ panic
unfolding parse_rst_stream
parse_rst_stream-ne-panic id payload = ground arith

parse_settings-ne-panic : (flags : ℕ) (payload : List ℕ) → parse_settings flags payload ≢ panic
unfolding parse_settings
parse_settings-ne-panic flags payload =
    ground (arith, read_parameters-ne-panic (length payload / 6) no_settings payload (omega arith))

parse_ping-ne-panic : (flags : ℕ) (payload : List ℕ) → parse_ping flags payload ≢ panic
unfolding parse_ping
parse_ping-ne-panic flags payload = ground arith

parse_goaway-ne-panic : (payload : List ℕ) → parse_goaway payload ≢ panic
unfolding parse_goaway
parse_goaway-ne-panic payload = ground arith

parse_window_update-ne-panic : (id : ℕ) (payload : List ℕ) → parse_window_update id payload ≢ panic
unfolding parse_window_update
parse_window_update-ne-panic id payload = ground arith

parse_continuation-ne-panic :
    (flags id : ℕ) (payload : List ℕ) → parse_continuation flags id payload ≢ panic
unfolding parse_continuation
parse_continuation-ne-panic flags id payload = ground arith

read_pad_length-ne-panic :
    (r : List ℕ) (padded : Bool) (e : H2Error) → read_pad_length r (length r) padded e ≢ panic
unfolding read_pad_length
read_pad_length-ne-panic r false e = ground arith
read_pad_length-ne-panic [] true e = ground arith
read_pad_length-ne-panic (a ∷ r) true e = ground arith

read_optional_priority-ne-panic : (r : List ℕ) (has : Bool) → read_optional_priority r has ≢ panic
unfolding read_optional_priority
read_optional_priority-ne-panic r false = ground arith
read_optional_priority-ne-panic r true = ground arith

parse_headers-ne-panic : (flags id : ℕ) (payload : List ℕ) → parse_headers flags id payload ≢ panic
unfolding parse_headers
parse_headers-ne-panic flags id payload = ground arith

parse_push_promise-ne-panic :
    (flags id : ℕ) (payload : List ℕ) → parse_push_promise flags id payload ≢ panic
unfolding parse_push_promise
parse_push_promise-ne-panic flags id payload = ground arith

arm-ne-panic :
    (b : Bool) (x : Outcome Frame) (y : Outcome (Option Frame))
    → x ≢ panic
    → y ≢ panic
    → (if b then known x else y) ≢ panic
arm-ne-panic true (ok f) y hx hy = λ e. cc
arm-ne-panic true (err e) y hx hy = λ e. cc
arm-ne-panic true panic y hx hy = λ e. hx refl
arm-ne-panic false x y hx hy = hy

ok-ne-panic : (o : Option Frame) → ok o ≢ panic
ok-ne-panic o = ground arith

-- Whatever the peer sends as a payload, under any type and flags, `parse_payload` answers a frame,
-- a type to skip, or an error: it never reads past the end of the payload.
pub parse_payload-ne-panic :
    (type_id flags id : ℕ) (payload : List ℕ) → parse_payload type_id flags id payload ≢ panic
unfolding parse_payload
parse_payload-ne-panic type_id flags id payload =
    arm-ne-panic _ _ _ (parse_data-ne-panic flags id payload) (
      arm-ne-panic _ _ _ (parse_headers-ne-panic flags id payload) (
        arm-ne-panic _ _ _ (parse_priority-ne-panic id payload) (
          arm-ne-panic _ _ _ (parse_rst_stream-ne-panic id payload) (
            arm-ne-panic _ _ _ (parse_settings-ne-panic flags payload) (
              arm-ne-panic _ _ _ (parse_push_promise-ne-panic flags id payload) (
                arm-ne-panic _ _ _ (parse_ping-ne-panic flags payload) (
                  arm-ne-panic _ _ _ (parse_goaway-ne-panic payload) (
                    arm-ne-panic _ _ _ (parse_window_update-ne-panic id payload) (
                      arm-ne-panic _ _ _ (parse_continuation-ne-panic flags id payload)
                        (ok-ne-panic none))))))))))
