-- ===== src/Hex/Words.antt =====
-- The byte order in which a pool sends a previous block's hash, which main/utils.c turns back.
use m45_gamma_firmware.Base.{
  ℕ, ◌+◌, ◌*◌, ◌≡◌, refl, sym, ap, ap₂, ◌∙◌, List, [], ◌∷◌, ◌++◌, reverse, append_assoc, arith,
  length, take, All, length-append, take-append, drop-append,
}
use mathlib.Core.List.{reverse-reverse, reverse-cons}
use m45_gamma_firmware.Hex.{swap_loop, reverse_endianness_per_word, word}

-- The bytes of words in turn, and with the bytes of each word turned round.
pub joined : List (List ℕ) → List ℕ
joined [] = []
joined (w ∷ words) = w ++ joined words

unfoldable pub turned : List (List ℕ) → List ℕ
turned [] = []
turned (w ∷ words) = reverse w ++ turned words

-- Eight words of four bytes.
pub record IsEightWords (words : List (List ℕ)) : Type 0 where
  pub eight : length words ≡ 8
  pub four : All (λ (w : List ℕ). length w ≡ 4) words

length-reverse : (w : List ℕ) → length (reverse w) ≡ length w
length-reverse [] = refl
length-reverse (b ∷ w) =
    let turned_length = ap length (reverse-cons b w) in
    omega (arith, turned_length, length-append (reverse w) (b ∷ []), length-reverse w)

word-behind :
    (front w rest : List ℕ) (i : ℕ)
    → length front ≡ 4 * i
    → length w ≡ 4
    → word (front ++ (w ++ rest)) i ≡ w
word-behind front w rest i there four =
    ap (take 4) (drop-append front (w ++ rest) (4 * i) there) ∙ take-append w rest 4 four

swap_loop-turned :
    (words : List (List ℕ)) (front : List ℕ) (i : ℕ)
    → length front ≡ 4 * i
    → All (λ (w : List ℕ). length w ≡ 4) words
    → swap_loop (length words) i (front ++ turned words) ≡ joined words
unfolding swap_loop turned joined
swap_loop-turned [] front i there four = refl
swap_loop-turned (w ∷ words) front i there (here, four) =
    let long : length (reverse w) ≡ 4 = omega (arith, length-reverse w, here) in
    ap₂ (λ (a b : List ℕ). a ++ b)
      (ap reverse (word-behind front (reverse w) (turned words) i there long) ∙ reverse-reverse w)
      (ap (swap_loop (length words) (i + 1)) (sym (append_assoc front (reverse w) (turned words)))
        ∙ swap_loop-turned words (front ++ reverse w) (i + 1)
            (omega (arith, length-append front (reverse w), there, long)) four)

pub reverse_endianness_per_word-turned :
    (words : List (List ℕ))
    → IsEightWords words
    → reverse_endianness_per_word (turned words) ≡ joined words
unfolding reverse_endianness_per_word
reverse_endianness_per_word-turned words is =
    ap (λ (n : ℕ). swap_loop n 0 (turned words)) (sym is.eight)
    ∙ swap_loop-turned words [] 0 refl is.four

length-joined :
    (words : List (List ℕ))
    → All (λ (w : List ℕ). length w ≡ 4) words
    → length (joined words) ≡ 4 * length words
unfolding joined
length-joined [] four = refl
length-joined (w ∷ words) (here, four) =
    omega (arith, length-append w (joined words), here, length-joined words four)

pub length-eight_words : (words : List (List ℕ)) → IsEightWords words → length (joined words) ≡ 32
length-eight_words words is = omega (arith, length-joined words is.four, is.eight)
