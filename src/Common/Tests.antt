-- ===== src/Common/Tests.antt =====
-- The theorems on the helpers in common/ at concrete inputs.
use neuro_mesh.Prelude.{
  ℕ, zero, suc, ◌+◌, ◌≡◌, ◌⊎◌, refl, ap, true, false, none, some, [], ◌∷◌, Text, codes, length,
  arith,
}
use neuro_mesh.Common.Base64.RoundTrip.{base64_decode-base64_encode}
use neuro_mesh.Common.Base64.{Decoded, Base64Error, base64_encode, base64_decode}
use neuro_mesh.Common.Result.{Result}
use neuro_mesh.Common.StateJournal.Lines.{IsLine}
use neuro_mesh.Common.StateJournal.Recovery.{Entry, IsWhole, append_all, append_all-recover}
use neuro_mesh.Common.StateJournal.Rotation.{rotate-keeps}
use neuro_mesh.Common.StateJournal.{
  FileCalls, StateJournal, open_journal, recover, rotate, rotation_size,
}

-- The test vectors of RFC 4648.
rfc_vectors :
    (base64_encode (codes "foob") ≡ codes "Zm9vYg==")
    × (base64_encode (codes "fooba") ≡ codes "Zm9vYmE=")
    × (base64_encode (codes "foobar") ≡ codes "Zm9vYmFy")
    × (base64_decode (codes "Zm9vYmE=") ≡ Decoded.bytes (codes "fooba"))
    × (base64_decode (codes "Zm9") ≡ Decoded.error Base64Error.invalid_length)
    × (base64_decode (codes "Zm9*") ≡ Decoded.error Base64Error.invalid_char)
unfolding base64_encode base64_decode
rfc_vectors = (refl, refl, refl, refl, refl, refl)

base64_decode-base64_encode_example :
    base64_decode (base64_encode (200 ∷ 0 ∷ 255 ∷ 7 ∷ [])) ≡ Decoded.bytes (200 ∷ 0 ∷ 255 ∷ 7 ∷ [])
base64_decode-base64_encode_example =
    base64_decode-base64_encode (200 ∷ 0 ∷ 255 ∷ 7 ∷ [])
      (omega arith, (omega arith, (omega arith, (omega arith, tt))))

abbrev failed : Result ℕ Text
failed = Result.error (codes "no")

abbrev fine : FileCalls
fine = record {
  opens = true;
  locks = true;
  stats = true;
  backup_opens = true;
  seeks = true;
  read_fails_after = none;
  backup_short_after = none;
  truncates = true;
  written = λ line. some (length line);
}

abbrev toy_hash : Text → Text
toy_hash text = codes "0f"

toy_hash-IsLine : (text : Text) → IsLine (toy_hash text)
toy_hash-IsLine text = (refl, (refl, tt))

abbrev entry : Text → Entry
entry evidence = record {
  calls = fine;
  now_ms = 12;
  stage = codes "PREPARE";
  target_id = codes "n";
  evidence_json = evidence;
}

entry-IsWhole : (evidence : Text) → IsWhole (entry evidence)
entry-IsWhole evidence = record {
  stage_line = (refl, (refl, (refl, (refl, (refl, (refl, (refl, tt)))))));
  target_line = (refl, tt);
  opens = refl;
  writes = λ line. refl;
}

append_all-recover_example :
    recover
      (append_all toy_hash toy_hash-IsLine
        (entry (codes "a\nb") ∷ entry (codes "\"seq\":9") ∷ [])
        (open_journal true true [])).content
    ≡ 2
append_all-recover_example =
    append_all-recover toy_hash toy_hash-IsLine
      (entry (codes "a\nb") ∷ entry (codes "\"seq\":9") ∷ [])
      (entry-IsWhole (codes "a\nb"), (entry-IsWhole (codes "\"seq\":9"), tt)) (omega arith)

repeat : ℕ → ℕ → Text
repeat zero c = []
repeat (suc n) c = c ∷ repeat n c

length-repeat : (n c : ℕ) → length (repeat n c) ≡ n
unfolding repeat
length-repeat zero c = refl
length-repeat (suc n) c = ap suc (length-repeat n c)

-- A file of one byte more than the limit, and a disk that fails to read after five bytes.
abbrev large : StateJournal
large = record {
  seq = 9;
  is_open = true;
  content = repeat (rotation_size + 1) b'x';
  backup = [];
  write_failure_logged = false;
}

rotate-keeps_example :
    ((rotate fine large).content ≡ large.content)
    ⊎ (((rotate fine large).content ≡ []) × ((rotate fine large).backup ≡ large.content))
rotate-keeps_example = rotate-keeps fine large refl
