-- ===== src/Frames/SettingsRoundTrip.antt =====
-- rust/crates/h2ts-client/src/frames.rs: the SETTINGS payload, written and read back.
use h2ts.Common.{
  ℕ, suc, ◌*◌, ◌/◌, ◌%◌, ◌^◌, ◌<◌, ◌≡◌, refl, ap, ap₂, ◌∙◌, Bool, true, false, List, [], ◌++◌,
  Option, none, some, arith, length, append-nil,
}
use h2ts.Errors.{ok}
use h2ts.Bytes.{from_u16, from_u32}
use h2ts.Frames.Types.{Settings, no_settings, Frame}
use h2ts.Frames.Encode.{setting_bytes, settings_bytes, bit_of}
use h2ts.Frames.Parse.{read_parameters, set_parameter, parse_settings}

abbrev pub Holds {ℓ} : (ℕ → Type ℓ) → Option ℕ → Type ℓ
Holds P none = Unit
Holds P (some v) = P v

abbrev IsU32 : ℕ → Type 0
IsU32 v = v < 2 ^ 32

-- What the fields' types allow.
pub record IsSettings (s : Settings) : Type 0 where
  pub table : Holds (λ v. v < 2 ^ 32) s.header_table_size
  pub streams : Holds (λ v. v < 2 ^ 32) s.max_concurrent_streams
  pub window : Holds (λ v. v < 2 ^ 32) s.initial_window_size
  pub frame : Holds (λ v. v < 2 ^ 32) s.max_frame_size
  pub list : Holds (λ v. v < 2 ^ 32) s.max_header_list_size

read_u16_bytes : (v : ℕ) → v < 2 ^ 16 → from_u16 (v / 2 ^ 8 % 2 ^ 8) (v % 2 ^ 8) ≡ v
read_u16_bytes v h = omega arith

read_u32_bytes :
    (v : ℕ)
    → v < 2 ^ 32
    → from_u32 (v / 2 ^ 24 % 2 ^ 8) (v / 2 ^ 16 % 2 ^ 8) (v / 2 ^ 8 % 2 ^ 8) (v % 2 ^ 8) ≡ v
read_u32_bytes v h = omega arith

-- One more parameter to read, if it is there.
abbrev plus : Option ℕ → ℕ → ℕ
plus none n = n
plus (some v) n = suc n

abbrev set_optional : Settings → ℕ → Option ℕ → Settings
set_optional s id none = s
set_optional s id (some v) = set_parameter s id v

read_setting :
    (n id : ℕ) (s : Settings) (o : Option ℕ) (r : List ℕ)
    → id < 2 ^ 16
    → Holds IsU32 o
    → read_parameters (plus o n) s (setting_bytes id o ++ r)
      ≡ read_parameters n (set_optional s id o) r
unfolding read_parameters
read_setting n id s none r hid h = refl
read_setting n id s (some v) r hid h =
    ap₂ (λ i w. read_parameters n (set_parameter s i w) r) (read_u16_bytes id hid)
      (read_u32_bytes v h)

bit_of-Holds : (o : Option Bool) → Holds IsU32 (bit_of o)
bit_of-Holds none = tt
bit_of-Holds (some true) = omega arith
bit_of-Holds (some false) = omega arith

length_setting :
    (id n : ℕ) (o : Option ℕ) (r : List ℕ)
    → length r ≡ 6 * n
    → length (setting_bytes id o ++ r) ≡ 6 * plus o n
length_setting id n none r h = h
length_setting id n (some v) r h = omega arith

-- Each parameter is set in a field that holds none.
set_parameters :
    (s : Settings)
    → set_optional
        (set_optional
          (set_optional
            (set_optional
              (set_optional
                (set_optional no_settings 1 s.header_table_size)
                2
                (bit_of s.enable_push))
              3
              s.max_concurrent_streams)
            4
            s.initial_window_size)
          5
          s.max_frame_size)
        6
        s.max_header_list_size
      ≡ s
unfolding set_parameter
set_parameters s =
    let t1 : Settings = record no_settings { header_table_size = s.header_table_size } in
    let t2 : Settings = record t1 { enable_push = s.enable_push } in
    let t3 : Settings = record t2 { max_concurrent_streams = s.max_concurrent_streams } in
    let t4 : Settings = record t3 { initial_window_size = s.initial_window_size } in
    let t5 : Settings = record t4 { max_frame_size = s.max_frame_size } in
    ap
      (λ t.
        set_optional
          (set_optional
            (set_optional
              (set_optional (set_optional t 2 (bit_of s.enable_push)) 3 s.max_concurrent_streams) 4
              s.initial_window_size)
            5 s.max_frame_size)
          6 s.max_header_list_size)
      (set_table s.header_table_size)
    ∙ ap
        (λ t.
          set_optional
            (set_optional
              (set_optional (set_optional t 3 s.max_concurrent_streams) 4 s.initial_window_size) 5
              s.max_frame_size)
            6 s.max_header_list_size)
        (set_push t1 s.enable_push refl)
    ∙ ap
        (λ t.
          set_optional (set_optional (set_optional t 4 s.initial_window_size) 5 s.max_frame_size) 6
            s.max_header_list_size)
        (set_streams t2 s.max_concurrent_streams refl)
    ∙ ap (λ t. set_optional (set_optional t 5 s.max_frame_size) 6 s.max_header_list_size)
        (set_window t3 s.initial_window_size refl)
    ∙ ap (λ t. set_optional t 6 s.max_header_list_size) (set_frame t4 s.max_frame_size refl)
    ∙ set_list t5 s.max_header_list_size refl
  where
    set_table :
        (o : Option ℕ) → set_optional no_settings 1 o ≡ record no_settings { header_table_size = o }
    set_table none = refl
    set_table (some v) = refl

    set_push :
        (t : Settings) (o : Option Bool)
        → t.enable_push ≡ none
        → set_optional t 2 (bit_of o) ≡ record t { enable_push = o }
    set_push t none e = ground arith
    set_push t (some true) e = refl
    set_push t (some false) e = refl

    set_streams :
        (t : Settings) (o : Option ℕ)
        → t.max_concurrent_streams ≡ none
        → set_optional t 3 o ≡ record t { max_concurrent_streams = o }
    set_streams t none e = ground arith
    set_streams t (some v) e = refl

    set_window :
        (t : Settings) (o : Option ℕ)
        → t.initial_window_size ≡ none
        → set_optional t 4 o ≡ record t { initial_window_size = o }
    set_window t none e = ground arith
    set_window t (some v) e = refl

    set_frame :
        (t : Settings) (o : Option ℕ)
        → t.max_frame_size ≡ none
        → set_optional t 5 o ≡ record t { max_frame_size = o }
    set_frame t none e = ground arith
    set_frame t (some v) e = refl

    set_list :
        (t : Settings) (o : Option ℕ)
        → t.max_header_list_size ≡ none
        → set_optional t 6 o ≡ record t { max_header_list_size = o }
    set_list t none e = ground arith
    set_list t (some v) e = refl

-- How many parameters are present.
abbrev total : Settings → ℕ
total s = plus s.header_table_size (
    plus (bit_of s.enable_push) (
      plus s.max_concurrent_streams
        (plus s.initial_window_size (plus s.max_frame_size (plus s.max_header_list_size 0)))))

length-settings_bytes : (s : Settings) → length (settings_bytes s) ≡ 6 * total s
length-settings_bytes s = length_setting 1 _ s.header_table_size _ (
    length_setting 2 _ (bit_of s.enable_push) _ (
      length_setting 3 _ s.max_concurrent_streams _ (
        length_setting 4 _ s.initial_window_size _ (
          length_setting 5 _ s.max_frame_size _ (
            rw (← append-nil (setting_bytes 6 s.max_header_list_size))
              (length_setting 6 0 s.max_header_list_size [] refl))))))

read_last :
    (id : ℕ) (s : Settings) (o : Option ℕ)
    → id < 2 ^ 16
    → Holds IsU32 o
    → read_parameters (plus o 0) s (setting_bytes id o) ≡ ok (set_optional s id o)
unfolding read_parameters
read_last id s o hid h = rw (← append-nil (setting_bytes id o)) (read_setting 0 id s o [] hid h)

read_settings_bytes :
    (s : Settings) → IsSettings s → read_parameters (total s) no_settings (settings_bytes s) ≡ ok s
read_settings_bytes s h =
    read_setting _ 1 _ s.header_table_size _ (omega arith) h.table
    ∙ read_setting _ 2 _ (bit_of s.enable_push) _ (omega arith) (bit_of-Holds s.enable_push)
    ∙ read_setting _ 3 _ s.max_concurrent_streams _ (omega arith) h.streams
    ∙ read_setting _ 4 _ s.initial_window_size _ (omega arith) h.window
    ∙ read_setting _ 5 _ s.max_frame_size _ (omega arith) h.frame
    ∙ read_last 6 _ s.max_header_list_size (omega arith) h.list
    ∙ ap ok (set_parameters s)

pub settings-roundtrip :
    (s : Settings)
    → IsSettings s
    → parse_settings 0 (settings_bytes s) ≡ ok (Frame.settings false s)
unfolding parse_settings
settings-roundtrip s h = ground (arith, length-settings_bytes s, read_settings_bytes s h)

pub ack-roundtrip : parse_settings 1 [] ≡ ok (Frame.settings true no_settings)
unfolding parse_settings read_parameters
ack-roundtrip = refl
