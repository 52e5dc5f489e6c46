-- ===== src/Loader/Hex/LineByLine.antt =====
-- What a line of each kind does, and the text behind it.
use iss_notify_firmware.Common.{
  ℕ, suc, ◌+◌, ◌*◌, ◌^◌, ◌<◌, true, false, some, [], ◌∷◌, Bytes, ◌≡◌, refl, ap, sym, ◌∙◌, arith,
  ◌==◌, length, u32, ==_iff,
}
use iss_notify_firmware.Loader.Hex.{
  HexState, low_byte, high_byte, extend_address, line_body, read_lines, parse_hex_line,
}
use iss_notify_firmware.Loader.Hex.Digits.{hex_byte, sscanf_hex-hex_byte, sscanf_hex-hex_word}
use iss_notify_firmware.Loader.Hex.Record.{hex_bytes, byte_sum, complement, hex_line}
use iss_notify_firmware.Loader.Hex.Parsed.{parse_hex_line-body, parse_hex_line-hex_line}
use iss_notify_firmware.Loader.Hex.Text.{read_lines-hex_line}
use iss_notify_firmware.Loader.Hex.Lines.{
  Line, bytes_at, segment, linear, other, word_bytes, line_text, FitsAt, after,
}

extend_address_lem :
    (shift w sum : ℕ) (rest : Bytes) (st : HexState)
    → w < 2 ^ 16
    → w * 2 ^ shift < 2 ^ 32
    → extend_address shift
        (hex_bytes (word_bytes w) (hex_byte (complement (sum + byte_sum (word_bytes w))) rest))
        sum
        st
      ≡ some (true, record st { extended_addr = w * 2 ^ shift })
unfolding extend_address hex_byte
extend_address_lem shift w sum rest st word inside =
    let check = complement (sum + byte_sum (word_bytes w)) in
    let zero_sum : (low_byte (low_byte (sum + high_byte w + low_byte w) + low_byte check) == 0)
        ≡ true =
      ground arith in
    let kept : u32 (w * 2 ^ shift) ≡ w * 2 ^ shift = omega arith in
    rw
      (
        sscanf_hex-hex_word w (hex_byte check rest) word,
        sscanf_hex-hex_byte check rest (omega arith),
        zero_sum,
        kept,
      )
      refl

body_segment :
    (sum w : ℕ) (ptr : Bytes) (st : HexState)
    → line_body 2 0 2 ptr sum st ≡ extend_address 4 ptr sum st
unfolding line_body
body_segment sum w ptr st = refl

body_linear :
    (sum w : ℕ) (ptr : Bytes) (st : HexState)
    → line_body 2 0 4 ptr sum st ≡ extend_address 16 ptr sum st
unfolding line_body
body_linear sum w ptr st = refl

body_other :
    (len code sum : ℕ) (ptr : Bytes) (st : HexState)
    → 4 < code
    → line_body len 0 code ptr sum st ≡ some (true, st)
unfolding line_body
body_other len code sum ptr st h = ground arith

body_end :
    (sum : ℕ) (ptr : Bytes) (st : HexState)
    → line_body 0 0 1 ptr sum st ≡ some (true, record st { end_record_seen = 1 })
unfolding line_body
body_end sum ptr st = refl

-- The count of the bytes is a word.
pub counted : (st : HexState) → st.byte_count < 2 ^ 32 → u32 (st.byte_count + 0) ≡ st.byte_count
counted st h = omega arith

parse_hex_line-line :
    (l : Line) (st : HexState)
    → st.byte_count < 2 ^ 32
    → FitsAt st.extended_addr l
    → parse_hex_line (line_text l (b'\n' ∷ [])) st ≡ some (true, after l st)
parse_hex_line-line (bytes_at addr bs) st small (few, inside, ok) =
    parse_hex_line-hex_line addr bs (b'\n' ∷ []) st few (omega arith) inside ok
parse_hex_line-line (segment w) st small (word, inside) =
    parse_hex_line-body 2 0 (word_bytes w) (b'\n' ∷ []) st (omega arith) (omega arith) (omega arith)
      (omega arith) (omega arith)
    ∙ body_segment _ w _ st
    ∙ extend_address_lem 4 w _ (b'\n' ∷ []) st word (omega arith)
    ∙ ap (λ n. some (true, record st { byte_count = n; extended_addr = w * 16 }))
        (sym (counted st small))
parse_hex_line-line (linear w) st small (word, inside) =
    parse_hex_line-body 4 0 (word_bytes w) (b'\n' ∷ []) st (omega arith) (omega arith) (omega arith)
      (omega arith) (omega arith)
    ∙ body_linear _ w _ st
    ∙ extend_address_lem 16 w _ (b'\n' ∷ []) st word (omega arith)
    ∙ ap (λ n. some (true, record st { byte_count = n; extended_addr = w * 2 ^ 16 }))
        (sym (counted st small))
parse_hex_line-line (other code bs) st small (high, byte, few, inside) =
    parse_hex_line-body code 0 bs (b'\n' ∷ []) st byte few (omega arith) (omega arith) (omega arith)
    ∙ body_other (length bs) code _ _ st high
    ∙ ap (λ n. some (true, record st { byte_count = n })) (sym (counted st small))

pub parse_hex_line-last :
    (st : HexState)
    → st.extended_addr < 2 ^ 16
    → parse_hex_line (hex_line 1 0 [] (b'\n' ∷ [])) st
      ≡ some (true, record st { end_record_seen = 1 })
parse_hex_line-last st inside =
    parse_hex_line-body 1 0 [] (b'\n' ∷ []) st (omega arith) (omega arith) (omega arith)
      (omega arith) (omega arith)
    ∙ body_end _ _ st

pub read_lines-line :
    (fuel : ℕ) (l : Line) (s : Bytes) (st : HexState)
    → st.byte_count < 2 ^ 32
    → st.end_record_seen ≡ 0
    → FitsAt st.extended_addr l
    → read_lines (suc fuel) (line_text l (b'\n' ∷ s)) st ≡ read_lines fuel s (after l st)
read_lines-line fuel l s st small open_end fits =
    let more : (st.end_record_seen == 0) ≡ true = (==_iff st.end_record_seen 0).1 open_end in
    read_line_text fuel l s st small fits ∙ rw more refl
  where
    read_line_text :
        (fuel : ℕ) (l : Line) (s : Bytes) (st : HexState)
        → st.byte_count < 2 ^ 32
        → FitsAt st.extended_addr l
        → read_lines (suc fuel) (line_text l (b'\n' ∷ s)) st ≡ (elim (st.end_record_seen == 0) [
          | true ↦ read_lines fuel s (after l st)
          | false ↦ some (true, after l st)
        ])
    read_line_text fuel (bytes_at addr bs) s st small fits =
        read_lines-hex_line fuel 0 addr bs s st _ fits.0
          (parse_hex_line-line (bytes_at addr bs) st small fits)
    read_line_text fuel (segment w) s st small fits =
        read_lines-hex_line fuel 2 0 (word_bytes w) s st _ (omega arith)
          (parse_hex_line-line (segment w) st small fits)
    read_line_text fuel (linear w) s st small fits =
        read_lines-hex_line fuel 4 0 (word_bytes w) s st _ (omega arith)
          (parse_hex_line-line (linear w) st small fits)
    read_line_text fuel (other code bs) s st small fits =
        read_lines-hex_line fuel code 0 bs s st _ fits.2
          (parse_hex_line-line (other code bs) st small fits)
