-- ===== src/MapView/Written.antt =====
-- The code writes the format: the calls that a description makes, where the message has room for
-- them, leave the bytes of MapView/Encoding.antt in the buffer.
use theforgottenserver.Prelude.{
  ℕ, suc, ◌+◌, ◌<◌, ◌≡◌, refl, sym, ap, ◌∙◌, Bool, true, false, not, ◌||◌, List, [], ◌∷◌, ◌++◌,
  ◌==◌, ltb, if◌then◌else◌, length, arith, inl, inr, Bool-cases, subst,
}
use theforgottenserver.Network.Memory.{le_bytes, length-le_bytes, store_bytes}
use theforgottenserver.Network.Message.{
  NetworkMessage, can_add, put, add, add_string, max_body_length,
}
use theforgottenserver.Network.Message.RoundTrip.{
  IsWriting, wrote, wrote-IsWriting, add_byte_lem, add_lem, add_string_lem,
}
use theforgottenserver.MapView.{Call, byte, word, string, make_call, make_calls}

unfoldable pub call_bytes : Call → List ℕ
call_bytes (byte v) = v ∷ []
call_bytes (word size v) = le_bytes size v
call_bytes (string s) = if ltb 8192 (length s) then [] else le_bytes 2 (length s) ++ s

unfoldable pub bytes_of : List Call → List ℕ
bytes_of [] = []
bytes_of (c ∷ cs) = call_bytes c ++ bytes_of cs

store_bytes-append :
    (b : ℕ → ℕ) (p : ℕ) (xs ys : List ℕ)
    → store_bytes b p (xs ++ ys) ≡ store_bytes (store_bytes b p xs) (p + length xs) ys
unfolding store_bytes
store_bytes-append b p [] ys = ap (λ k. store_bytes b k ys) (omega arith)
store_bytes-append b p (x ∷ xs) ys =
    let b1 : ℕ → ℕ = λ i. if i == p then x else b i in
    store_bytes-append b1 (suc p) xs ys
    ∙ ap (λ k. store_bytes (store_bytes b1 (suc p) xs) k ys) (omega arith)

length_append_lem : (xs ys : List ℕ) → length (xs ++ ys) ≡ length xs + length ys
length_append_lem [] ys = omega arith
length_append_lem (x ∷ xs) ys = omega (arith, length_append_lem xs ys)

wrote-nil : (m : NetworkMessage) → wrote [] m ≡ m
unfolding store_bytes
wrote-nil m =
    let e : m.position + 0 ≡ m.position = omega arith in
    let e' : m.length + 0 ≡ m.length = omega arith in rw (e, e') refl

wrote-append : (xs ys : List ℕ) (m : NetworkMessage) → wrote (xs ++ ys) m ≡ wrote ys (wrote xs m)
wrote-append xs ys m =
    let e : m.position + length (xs ++ ys) ≡ m.position + length xs + length ys =
      omega (arith, length_append_lem xs ys) in
    let e' : m.length + length (xs ++ ys) ≡ m.length + length xs + length ys =
      omega (arith, length_append_lem xs ys) in
    rw (store_bytes-append m.buffer m.position xs ys, e, e')

call_lem :
    (c : Call) (m : NetworkMessage)
    → IsWriting m
    → m.position + length (call_bytes c) < max_body_length
    → make_call c m ≡ wrote (call_bytes c) m
unfolding make_call call_bytes add_string
call_lem (byte v) m w h = add_byte_lem v m w h
call_lem (word size v) m w h = add_lem size v m w (omega (arith, length-le_bytes size v))
call_lem (string s) m w h = elim (Bool-cases (ltb 8192 (length s))) [
  | inl e ↦ too_long e
  | inr e ↦
      add_string_lem s m w (ground (arith, e)) (omega (arith, room e))
      ∙ sym (wrote-append (le_bytes 2 (length s)) s m)
      ∙ ap (λ b. wrote (if b then [] else le_bytes 2 (length s) ++ s) m) (sym e)
]
  where
    too_long : ltb 8192 (length s) ≡ true → make_call (string s) m ≡ wrote (call_bytes (string s)) m
    too_long e = rw e (no_room (not (can_add m (length s + 2))))
      where
        no_room : (b : Bool) → (if b || true then m else put s (add 2 (length s) m)) ≡ wrote [] m
        no_room true = sym (wrote-nil m)
        no_room false = sym (wrote-nil m)

    room : ltb 8192 (length s) ≡ false → m.position + length s + 2 < max_body_length
    room e =
        let h' : m.position + length (le_bytes 2 (length s) ++ s) < max_body_length =
          subst
            (λ b.
              m.position + length (if b then [] else le_bytes 2 (length s) ++ s) < max_body_length)
            e h in
        omega (arith, h', length_append_lem (le_bytes 2 (length s)) s, length-le_bytes 2 (length s))

pub calls_lem :
    (cs : List Call) (m : NetworkMessage)
    → IsWriting m
    → m.position + length (bytes_of cs) < max_body_length
    → make_calls cs m ≡ wrote (bytes_of cs) m
unfolding make_calls bytes_of
calls_lem [] m w h = sym (wrote-nil m)
calls_lem (c ∷ cs) m w h =
    let l = length_append_lem (call_bytes c) (bytes_of cs) in
    let m1 = wrote (call_bytes c) m in
    ap (make_calls cs) (call_lem c m w (omega (arith, l)))
    ∙ calls_lem cs m1 (wrote-IsWriting (call_bytes c) m w (omega (arith, l))) (omega (arith, l))
    ∙ sym (wrote-append (call_bytes c) (bytes_of cs) m)
