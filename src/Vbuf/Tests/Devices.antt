-- ===== src/Vbuf/Tests/Devices.antt =====
-- A device that takes or delivers one byte a call, for the loops of `vbuf_general_write` and
-- `vbuf_general_read`.
use brs_bbs.Prelude.{
  ℕ, zero, suc, ◌+◌, ◌≤◌, ◌≡◌, refl, ◌≢◌, Option, none, some, List, [], ◌∷◌, ◌++◌, arith, length,
  take,
}
use brs_bbs.Vbuf.{Vbuf}
use brs_bbs.Vbuf.Device.{all, general_write, general_read}
use brs_bbs.Vbuf.Contents.{IsValid}
use brs_bbs.Vbuf.Device.Io.{WriterLaws, Progresses, Conserves, general_write-Conserves}
use brs_bbs.Vbuf.Device.Receive.{ReaderLaws, Delivers, Receives, general_read-Receives}

abbrev wrapped : Vbuf
wrapped = record { buf = 3 ∷ 4 ∷ 0 ∷ 0 ∷ 1 ∷ 2 ∷ []; buf_end = 6; capacity = 5; head = 4; tail = 2 }

wrapped-IsValid : IsValid wrapped
wrapped-IsValid = record {
  storage = refl;
  one_free = refl;
  head_in = omega arith;
  tail_in = omega arith;
}

-- the bytes sent so far, and the bytes offered
abbrev send_one : List ℕ → List ℕ → Option ℕ × List ℕ
send_one sent [] = (none, sent)
send_one sent (x ∷ xs) = (some 1, sent ++ (x ∷ []))

abbrev writer : List ℕ → List ℕ → List ℕ → Option ℕ × List ℕ
writer sent a b = send_one sent (a ++ b)

abbrev sent_by : List ℕ → List ℕ
sent_by sent = sent

send_one-le : (sent p : List ℕ) (n : ℕ) → (send_one sent p).0 ≡ some n → n ≤ length p
send_one-le sent p n e = ground arith

send_one-sends :
    (sent p : List ℕ) (n : ℕ)
    → (send_one sent p).0 ≡ some n
    → (send_one sent p).1 ≡ sent ++ take n p
send_one-sends sent p n e = ground arith

send_one-fails : (sent p : List ℕ) → (send_one sent p).0 ≡ none → (send_one sent p).1 ≡ sent
send_one-fails sent p e = ground arith

send_one-progress : (sent p : List ℕ) → (send_one sent p).0 ≢ some 0
send_one-progress sent p e = ground arith

writer-laws : WriterLaws writer sent_by
writer-laws = record {
  takes_at_most = λ ctx a b. send_one-le ctx (a ++ b);
  sends = λ ctx a b. send_one-sends ctx (a ++ b);
  fails = λ ctx a b. send_one-fails ctx (a ++ b);
}

writer-Progresses : Progresses writer
writer-Progresses ctx a b = send_one-progress ctx (a ++ b)

general_write-Conserves_example :
    Conserves sent_by [] wrapped (general_write writer 4 wrapped all [])
general_write-Conserves_example =
    general_write-Conserves writer sent_by writer-laws writer-Progresses wrapped all []
      wrapped-IsValid

-- what the device still has, and what it has delivered
abbrev Source : Type 0
Source = List ℕ × List ℕ

abbrev receive_one : Source → ℕ → Option (List ℕ) × Source
receive_one s zero = (none, s)
receive_one ([], got) (suc room) = (none, ([], got))
receive_one (x ∷ xs, got) (suc room) = (some (x ∷ []), (xs, got ++ (x ∷ [])))

abbrev reader : Source → ℕ → ℕ → Option (List ℕ) × Source
reader s a b = receive_one s (a + b)

abbrev got_by : Source → List ℕ
got_by s = s.1

receive_one-le :
    (s : Source) (room : ℕ) (p : List ℕ) → (receive_one s room).0 ≡ some p → length p ≤ room
receive_one-le s room p e = ground arith

receive_one-delivers :
    (s : Source) (room : ℕ) (p : List ℕ)
    → (receive_one s room).0 ≡ some p
    → got_by (receive_one s room).1 ≡ got_by s ++ p
receive_one-delivers s room p e = ground arith

receive_one-fails :
    (s : Source) (room : ℕ)
    → (receive_one s room).0 ≡ none
    → got_by (receive_one s room).1 ≡ got_by s
receive_one-fails s room e = ground arith

receive_one-progress : (s : Source) (room : ℕ) → (receive_one s room).0 ≢ some []
receive_one-progress s room e = ground arith

reader-laws : ReaderLaws reader got_by
reader-laws = record {
  fits_room = λ ctx a b. receive_one-le ctx (a + b);
  delivers = λ ctx a b. receive_one-delivers ctx (a + b);
  fails = λ ctx a b. receive_one-fails ctx (a + b);
}

reader-Delivers : Delivers reader
reader-Delivers ctx a b = receive_one-progress ctx (a + b)

general_read-Receives_example :
    Receives got_by (7 ∷ 8 ∷ [], []) wrapped (general_read reader 1 wrapped all (7 ∷ 8 ∷ [], []))
general_read-Receives_example =
    general_read-Receives reader got_by reader-laws reader-Delivers wrapped all (7 ∷ 8 ∷ [], [])
      wrapped-IsValid
