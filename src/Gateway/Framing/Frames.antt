-- ===== src/Gateway/Framing/Frames.antt =====
-- `SplitJSONObjects` of pkg/gateway/framing.go inverts the writing of objects one after the other.
use k8s_gpu_mcp_server.Base.{
  ℕ, suc, ◌≡◌, ◌≢◌, refl, ap, ◌∙◌, true, false, List, [], ◌∷◌, ◌++◌, foldl, arith, All,
  append_assoc, append-nil, foldl-append, map,
}
use k8s_gpu_mcp_server.Base.Int.{pos}
use k8s_gpu_mcp_server.Gateway.Framing.Grammar.{
  StringTail, quote, plain, escape, Balanced, empty, other, text, nest, IsObject,
}
use k8s_gpu_mcp_server.Gateway.Framing.Space.{is_space, trim_space, trim_space-braces}
use k8s_gpu_mcp_server.Gateway.Framing.Split.{Scanner, scan_byte, split_json_objects}

-- The scanner outside strings, at a depth.
abbrev at : List (List ℕ) → List ℕ → ℕ → Scanner
at objs cur n = record {
  objects = objs;
  current = cur;
  depth = pos n;
  in_string = false;
  escaped = false;
}

abbrev in_text : List (List ℕ) → List ℕ → ℕ → Scanner
in_text objs cur n = record (at objs cur n) { in_string = true }

abbrev scan_bytes : Scanner → List ℕ → Scanner
scan_bytes = foldl scan_byte

regroup :
    (cur s t : List ℕ)
    → (((cur ++ b'{' ∷ []) ++ s) ++ b'}' ∷ []) ++ t ≡ cur ++ b'{' ∷ (s ++ b'}' ∷ t)
regroup cur s t = simp append_assoc

module _ (objs : List (List ℕ)) where
  -- One byte at a time.
  step-open_quote :
      (n : ℕ) (cur : List ℕ) → scan_byte (at objs cur n) b'"' ≡ in_text objs (cur ++ b'"' ∷ []) n
  unfolding scan_byte
  step-open_quote n cur = refl

  step-close_quote :
      (n : ℕ) (cur : List ℕ) → scan_byte (in_text objs cur n) b'"' ≡ at objs (cur ++ b'"' ∷ []) n
  unfolding scan_byte
  step-close_quote n cur = refl

  step-plain :
      (n : ℕ) (cur : List ℕ) (b : ℕ)
      → b ≢ b'"'
      → b ≢ b'\\'
      → scan_byte (in_text objs cur n) b ≡ in_text objs (cur ++ b ∷ []) n
  unfolding scan_byte
  step-plain n cur b p q = ground arith

  step-escape :
      (n : ℕ) (cur : List ℕ) (b : ℕ)
      → scan_byte (scan_byte (in_text objs cur n) b'\\') b
        ≡ in_text objs ((cur ++ b'\\' ∷ []) ++ b ∷ []) n
  unfolding scan_byte
  step-escape n cur b = refl

  step-other :
      (n : ℕ) (cur : List ℕ) (b : ℕ)
      → b ≢ b'"'
      → b ≢ b'{'
      → b ≢ b'}'
      → scan_byte (at objs cur n) b ≡ at objs (cur ++ b ∷ []) n
  unfolding scan_byte
  step-other n cur b p q r = ground arith

  step-open :
      (n : ℕ) (cur : List ℕ) → scan_byte (at objs cur n) b'{' ≡ at objs (cur ++ b'{' ∷ []) (suc n)
  unfolding scan_byte
  step-open n cur = refl

  step-inner_close :
      (n : ℕ) (cur : List ℕ)
      → scan_byte (at objs cur (suc (suc n))) b'}' ≡ at objs (cur ++ b'}' ∷ []) (suc n)
  unfolding scan_byte
  step-inner_close n cur = ground arith

  step-outer_close :
      (cur : List ℕ)
      → scan_byte (at objs cur 1) b'}' ≡ at (objs ++ trim_space (cur ++ b'}' ∷ []) ∷ []) [] 0
  unfolding scan_byte
  step-outer_close [] = refl
  step-outer_close (x ∷ cur) = ground arith

  -- A string, whatever its bytes, is passed over.
  scan-StringTail :
      (n : ℕ) (cur : List ℕ) {s : List ℕ}
      → StringTail s
      → scan_bytes (in_text objs cur n) s ≡ at objs (cur ++ s) n
  scan-StringTail n cur quote = step-close_quote n cur
  scan-StringTail n cur (plain b {s} p q t) =
      rw (step-plain n cur b p q, scan-StringTail n (cur ++ b ∷ []) t, append_assoc)
  scan-StringTail n cur (escape b {s} t) = rw (
    step-escape n cur b,
    scan-StringTail n ((cur ++ b'\\' ∷ []) ++ b ∷ []) t,
    append_assoc,
    append_assoc,
  )

  -- Inside an object, balanced bytes leave the depth as it was.
  scan-Balanced :
      (n : ℕ) (cur : List ℕ) {s : List ℕ}
      → Balanced s
      → scan_bytes (at objs cur (suc n)) s ≡ at objs (cur ++ s) (suc n)
  scan-Balanced n cur empty = rw append-nil
  scan-Balanced n cur (other b {s} p q r t) =
      rw (step-other (suc n) cur b p q r, scan-Balanced n (cur ++ b ∷ []) t, append_assoc)
  scan-Balanced n cur (text {s} {t} u v) =
      ap (λ st. scan_bytes st (s ++ t)) (step-open_quote (suc n) cur)
      ∙ rw (
        foldl-append scan_byte (in_text objs (cur ++ b'"' ∷ []) (suc n)) s t,
        scan-StringTail (suc n) (cur ++ b'"' ∷ []) u,
        scan-Balanced n ((cur ++ b'"' ∷ []) ++ s) v,
        append_assoc,
        append_assoc,
      )
  scan-Balanced n cur (nest {s} {t} u v) =
      ap (λ st. scan_bytes st (s ++ b'}' ∷ t)) (step-open (suc n) cur)
      ∙ rw
          (
            foldl-append scan_byte (at objs (cur ++ b'{' ∷ []) (suc (suc n))) s (b'}' ∷ t),
            scan-Balanced (suc n) (cur ++ b'{' ∷ []) u,
            step-inner_close n ((cur ++ b'{' ∷ []) ++ s),
            scan-Balanced n (((cur ++ b'{' ∷ []) ++ s) ++ b'}' ∷ []) v,
          )
          (ap (λ c. at objs c (suc n)) (regroup cur s t))

  scan-space :
      (cur ws : List ℕ)
      → All (λ b. is_space b ≡ true) ws
      → scan_bytes (at objs cur 0) ws ≡ at objs (cur ++ ws) 0
  scan-space cur [] h = rw append-nil
  scan-space cur (w ∷ ws) (h, t) = rw (
    step-other 0 cur w (λ e. ground arith) (λ e. ground arith) (λ e. ground arith),
    scan-space (cur ++ w ∷ []) ws t,
    append_assoc,
  )

  -- One object, with white space before it.
  scan-object :
      (ws o : List ℕ)
      → All (λ b. is_space b ≡ true) ws
      → IsObject o
      → scan_bytes (at objs [] 0) (ws ++ o) ≡ at (objs ++ o ∷ []) [] 0
  scan-object ws o h d =
      let closing : List ℕ = d.body ++ b'}' ∷ [] in
      ap (λ o'. scan_bytes (at objs [] 0) (ws ++ o')) d.braces
      ∙ foldl-append scan_byte (at objs [] 0) ws (b'{' ∷ closing)
      ∙ ap (λ st. scan_bytes st (b'{' ∷ closing)) (scan-space [] ws h)
      ∙ ap (λ st. scan_bytes st closing) (step-open 0 ws)
      ∙ rw
          (
            foldl-append scan_byte (at objs (ws ++ b'{' ∷ []) 1) d.body (b'}' ∷ []),
            scan-Balanced 0 (ws ++ b'{' ∷ []) d.balanced,
          )
          (step-outer_close ((ws ++ b'{' ∷ []) ++ d.body)
            ∙ rw (append_assoc, append_assoc, trim_space-braces ws d.body h, d.braces))

-- A frame: white space, then an object.
abbrev pub Frame : Type 0
Frame = List ℕ × List ℕ

abbrev pub IsFrame : Frame → Type 0
IsFrame f = All (λ b. is_space b ≡ true) f.0 × IsObject f.1

-- The bytes of frames one after the other, with white space at the end.
abbrev pub stream : List Frame → List ℕ → List ℕ
stream [] last = last
stream ((ws, o) ∷ fs) last = (ws ++ o) ++ stream fs last

scan-stream :
    (objs : List (List ℕ)) (fs : List Frame) (last : List ℕ)
    → All IsFrame fs
    → All (λ b. is_space b ≡ true) last
    → (scan_bytes (at objs [] 0) (stream fs last)).objects ≡ objs ++ map (λ f. f.1) fs
scan-stream objs [] last h l = rw (scan-space objs [] last l, append-nil)
scan-stream objs ((ws, o) ∷ fs) last (h, t) l = rw (
  foldl-append scan_byte (at objs [] 0) (ws ++ o) (stream fs last),
  scan-object objs ws o h.0 h.1,
  scan-stream (objs ++ o ∷ []) fs last t l,
  append_assoc,
)

-- Objects written one after the other, with any ASCII white space before, between and after them,
-- are split into exactly those objects, in order. Braces and quotes inside strings do not matter.
pub split-stream :
    (fs : List Frame) (last : List ℕ)
    → All IsFrame fs
    → All (λ b. is_space b ≡ true) last
    → split_json_objects (stream fs last) ≡ map (λ f. f.1) fs
unfolding split_json_objects
split-stream fs last h l = scan-stream [] fs last h l
