-- ===== src/Diff/Tests.antt =====
-- Runs of diff_engine.py.
use topology_maps.Prelude.{ℕ, ◌≡◌, refl, some, List, [], ◌∷◌}
use topology_maps.Text.{Text, codes, text_eq}
use topology_maps.Json.{Fields, int, pos, str, arr, obj, nil, cons, end, field, has}
use topology_maps.Json.Printer.{print}
use topology_maps.Diff.{
  field_changed, field_added, secret_changed, value, row_added, row_removed, array, object_diff,
}
use topology_maps.Diff.Rows.{compute_diff}
use topology_maps.Diff.Same.{leaves_fields, object_diff_self}
use topology_maps.Diff.Agree.{AgreeFields, Covers, object_diff-Agree}

abbrev sha256 : List ℕ → Text
sha256 bytes = bytes

abbrev before : Fields
before =
    field (codes "psk_hash") (str (codes "x"))
      (field (codes "mode") (obj (field (codes "on") (int (pos 1)) end)) end)

abbrev after : Fields
after =
    field (codes "mode") (obj (field (codes "on") (int (pos 2)) end))
      (field (codes "psk_hash") (str (codes "y")) (field (codes "name") (str (codes "n")) end))

object_diff_runs : object_diff sha256 before after [] ≡ (
  field_changed (codes "mode.on") (int (pos 1)) (int (pos 2))
      ∷ field_added (codes "name") (str (codes "n"))
      ∷ secret_changed (codes "psk_hash")
      ∷ [],
  0,
)
unfolding object_diff print text_eq
object_diff_runs = refl

row : ℕ → Fields
row n = field (codes "id") (int (pos n)) end

compute_diff_runs :
    compute_diff sha256
      (arr (cons (obj (row 1)) (cons (obj (row 2)) nil)))
      (arr (cons (obj (row 2)) (cons (obj (row 3)) nil)))
    ≡ some (
        array
          (row_removed (value (int (pos 1))) (row 1) ∷ row_added (value (int (pos 3))) (row 3) ∷ [])
          1)
unfolding compute_diff row print text_eq
compute_diff_runs = refl

-- The rows are gone, and the result has no change.
compute_diff-emptied_runs :
    compute_diff sha256
      (obj (field (codes "rows") (arr (cons (obj (row 1)) nil)) end))
      (obj (field (codes "mode") (int (pos 1)) (field (codes "rows") (arr nil) end)))
    ≡ some (array [] 0)
unfolding compute_diff row print text_eq
compute_diff-emptied_runs = refl

object_diff_self_example : object_diff sha256 before before [] ≡ ([], leaves_fields before)
unfolding has text_eq
object_diff_self_example = object_diff_self sha256 before [] (refl, tt, (refl, (refl, tt, tt), tt))

object_diff-Agree_example : AgreeFields sha256 before before × Covers before before
unfolding object_diff print text_eq
object_diff-Agree_example = object_diff-Agree sha256 before before [] refl
