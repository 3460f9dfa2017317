-- ===== src/Fs/FilePath/Elements.antt =====
-- `skipelem` of kernel/fs.c: the elements of a path, whatever slashes stand between them.
use cs202lab.Prelude.{
  ℕ, zero, suc, ◌≤◌, ◌<◌, ◌≡◌, refl, ◌∙◌, ap, Bool, true, false, not, ◌&&◌, ◌||◌, none, some, List,
  [], ◌∷◌, ◌++◌, arith, take, length, replicate, ◌==◌,
}
use cs202lab.Fs.FilePath.{slash, skip_slashes, element, skipelem, is_end, starts_at_root}
use cs202lab.Fs.Directory.{dirsiz}

-- Bytes of one element: none is a slash.
abbrev pub plain : List ℕ → Bool
plain [] = true
plain (c ∷ cs) = not (c == slash) && plain cs

-- An element: not empty and with no slash.
abbrev pub is_element : List ℕ → Bool
is_element cs = not (is_end cs) && plain cs

skip_slashes-slashes : (n : ℕ) (p : List ℕ) → skip_slashes (replicate n slash ++ p) ≡ skip_slashes p
unfolding skip_slashes
skip_slashes-slashes zero p = refl
skip_slashes-slashes (suc n) p = skip_slashes-slashes n p

element-plain :
    (cs rest : List ℕ)
    → plain cs ≡ true
    → is_end rest || starts_at_root rest ≡ true
    → element (cs ++ rest) ≡ (cs, rest)
unfolding element
element-plain [] [] h e = refl
element-plain [] (c ∷ cs) h e = rw e refl
element-plain (c ∷ cs) rest h e =
    let s : (c == slash) ≡ false = ground arith in
    let p : plain cs ≡ true = ground arith in rw (s, element-plain cs rest p e) refl

-- In front of an element any number of slashes is skipped, and those behind it too; the element is cut
-- to DIRSIZ bytes.
pub skipelem-element :
    (n : ℕ) (cs rest : List ℕ)
    → is_element cs ≡ true
    → is_end rest || starts_at_root rest ≡ true
    → skipelem (replicate n slash ++ (cs ++ rest)) ≡ some (skip_slashes rest, take dirsiz cs)
unfolding skipelem
skipelem-element n [] rest h e = absurd (ground arith)
skipelem-element n (c ∷ cs) rest h e =
    let s : (c == slash) ≡ false = ground arith in
    let p : plain (c ∷ cs) ≡ true = ground arith in
    let k : skip_slashes ((c ∷ cs) ++ rest) ≡ (c ∷ cs) ++ rest = unfold skip_slashes in rw s refl in
    rw (skipelem, skip_slashes-slashes n ((c ∷ cs) ++ rest), k, element-plain (c ∷ cs) rest p e)
      refl

-- `skipelem` gives 0 at the end of the path, slashes or not.
skipelem-slashes : (n : ℕ) → skipelem (replicate n slash) ≡ none
unfolding skipelem skip_slashes
skipelem-slashes zero = refl
skipelem-slashes (suc n) = skipelem-slashes n

skip_slashes-head : (p : List ℕ) → starts_at_root (skip_slashes p) ≡ false
unfolding skip_slashes
skip_slashes-head [] = refl
skip_slashes-head (c ∷ cs) = ground (arith, skip_slashes-head cs)

skip_slashes-same : (p : List ℕ) → starts_at_root p ≡ false → skip_slashes p ≡ p
unfolding skip_slashes
skip_slashes-same [] h = refl
skip_slashes-same (c ∷ cs) h = rw h refl

skip_slashes_idem : (p : List ℕ) → skip_slashes (skip_slashes p) ≡ skip_slashes p
skip_slashes_idem p = skip_slashes-same (skip_slashes p) (skip_slashes-head p)

-- The elements that `skipelem` gives one after the other, k at most.
unfoldable pub elements : (k : ℕ) → List ℕ → List (List ℕ)
elements zero path = []
elements (suc k) path = elim (skipelem path) [
  | none ↦ []
  | some (rest, name) ↦ name ∷ elements k rest
]

-- Elements, each behind one slash or more, with `trail` slashes at the end.
abbrev pub print : (trail : ℕ) → List (ℕ × List ℕ) → List ℕ
print trail [] = replicate trail slash
print trail ((n, name) ∷ rest) = replicate (suc n) slash ++ (name ++ print trail rest)

abbrev pub names : List (ℕ × List ℕ) → List (List ℕ)
names [] = []
names ((n, name) ∷ rest) = take dirsiz name ∷ names rest

abbrev pub are_elements : List (ℕ × List ℕ) → Bool
are_elements [] = true
are_elements ((n, name) ∷ rest) = is_element name && are_elements rest

print-starts :
    (trail : ℕ) (es : List (ℕ × List ℕ))
    → is_end (print trail es) || starts_at_root (print trail es) ≡ true
print-starts zero [] = refl
print-starts (suc n) [] = refl
print-starts trail ((n, name) ∷ rest) = refl

-- Slashes in front do not change the elements.
elements-skip : (k : ℕ) (p : List ℕ) → elements k (skip_slashes p) ≡ elements k p
unfolding elements skipelem
elements-skip zero p = refl
elements-skip (suc k) p = rw (elements, skip_slashes_idem p) refl

-- A path that is put together from elements, with one slash or more in front of each and any number at
-- the end, is taken apart into the same elements, each cut to DIRSIZ bytes.
pub elements-print :
    (k trail : ℕ) (es : List (ℕ × List ℕ))
    → are_elements es ≡ true
    → length es < k
    → elements k (print trail es) ≡ names es
unfolding elements
elements-print zero trail es h lt = absurd (omega arith)
elements-print (suc k) trail [] h lt = rw (elements, skipelem-slashes trail) refl
elements-print (suc k) trail ((n, name) ∷ rest) h lt =
    let e : is_element name ≡ true = ground arith in
    let r : are_elements rest ≡ true = ground arith in
    let step = skipelem-element (suc n) name (print trail rest) e (print-starts trail rest) in
    rw (elements, step)
      (ap (λ l. take dirsiz name ∷ l)
        (elements-skip k (print trail rest) ∙ elements-print k trail rest r (omega arith)))

length-skip_slashes : (p : List ℕ) → length (skip_slashes p) ≤ length p
unfolding skip_slashes
length-skip_slashes [] = omega arith
length-skip_slashes (c ∷ cs) = ground (arith, length-skip_slashes cs)

length-element : (p : List ℕ) → length (element p).1 ≤ length p
unfolding element
length-element [] = omega arith
length-element (c ∷ cs) = ground (arith, length-element cs)

element-shorter :
    (p : List ℕ) → is_end p ≡ false → starts_at_root p ≡ false → length (element p).1 < length p
unfolding element
element-shorter [] h s = absurd (cc)
element-shorter (c ∷ cs) h s = ground (arith, length-element cs)

-- The rest is shorter than the path.
pub skipelem-shorter :
    (p rest name : List ℕ) → skipelem p ≡ some (rest, name) → length rest < length p
unfolding skipelem
skipelem-shorter p rest name e = ground (
  arith,
  length-skip_slashes p,
  length-skip_slashes (element (skip_slashes p)).1,
  element-shorter (skip_slashes p),
  skip_slashes-head p,
  ap (λ (l : List ℕ). length l),
)
