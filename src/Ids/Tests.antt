-- ===== src/Ids/Tests.antt =====
-- Runs of the id code, and its theorems at concrete ids.
use gitflare.Prelude.{◌≡◌, refl, true, none, some, replicate, codes, text_lt, arith}
use gitflare.Ids.{new_id, id_time}
use gitflare.Ids.Order.{id_time-new_id, new_id_sorts}

made : new_id 1700000000000 (replicate 16 255) ≡ codes "01HF7YAT00ZZZZZZZZZZZZZZZZ"
unfolding new_id
made = refl

foreign : id_time (codes "01HF7YAT0IZZZZZZZZZZZZZZZZ") ≡ none
unfolding id_time
foreign = refl

id_time-new_id_example : id_time (new_id 1700000000000 (replicate 16 255)) ≡ some 1700000000000
id_time-new_id_example =
    id_time-new_id 1700000000000 (replicate 16 255) (omega arith) (omega arith) refl

new_id_sorts_example :
    text_lt (new_id 1700000000000 (replicate 16 255)) (new_id 1700000000001 (replicate 16 0)) ≡ true
new_id_sorts_example =
    new_id_sorts 1700000000000 1700000000001 (replicate 16 255) (replicate 16 0) (omega arith)
      (omega arith)
