-- ===== src/Pagination/Windows.antt =====
-- The windows of pages (internal/pkg/utils/pagination.go).
use native.Mathlib.Nat.{suc-mul, zero-mul}
use go_ecommerce_microservic.Common.{ℕ, suc, ◌+◌, ◌*◌, ◌<◌, ◌≡◌, ap, sym, ◌∙◌, ◌%◌, arith}
use go_ecommerce_microservic.Common.Word64.{modulus, minus, add64}
use go_ecommerce_microservic.Pagination.{new_list_query, get_offset, get_limit}

pub get_offset-value :
    (size page : ℕ)
    → page * size < modulus
    → suc page < modulus
    → get_offset (new_list_query size (suc page)) ≡ page * size
unfolding get_offset
get_offset-value size page h k =
    let e : add64 (suc page) (minus 1) ≡ page = omega arith in
    let f : (page * size) % modulus ≡ page * size = omega arith in
    ground (arith, ap (λ n. (n * size) % modulus) e ∙ f)

-- Pages are numbered from 1 and follow each other without a gap or an overlap: the first one starts at 0,
-- and while the numbers fit into 64 bits, the window of the next page starts where a page's window ends.
pub get_offset-next :
    (size page : ℕ)
    → suc page * size < modulus
    → suc (suc page) < modulus
    → (get_offset (new_list_query size 1) ≡ 0)
      × (get_offset (new_list_query size (suc (suc page)))
          ≡ get_offset (new_list_query size (suc page))
            + get_limit (new_list_query size (suc page)))
get_offset-next size page h k =
    let e : suc page * size ≡ page * size + size = suc-mul page size in
    let first = get_offset-value size 0 (omega arith) (omega arith) in
    let here = get_offset-value size page (omega arith) (omega arith) in
    let there = get_offset-value size (suc page) h k in
    (first ∙ zero-mul size, there ∙ (omega arith ∙ ap (λ n. n + size) (sym here)))
