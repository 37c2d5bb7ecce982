-- ===== src/Orders/Speech.antt =====
-- The spoken form of line items, which the cancellation and return records keep as a summary.
use agnostic_market.Base.{
  ℕ, Bool, false, ◌||◌, Option, none, some, List, [], ◌∷◌, ◌++◌, map, ◌==◌, if◌then◌else◌,
}
use agnostic_market.Text.{Text, codes}
use agnostic_market.Text.Decimal.{decimal}
use agnostic_market.Orders.Types.{Line}

-- `name.endswith("s")`
unfoldable pub ends_in_s : Text → Bool
ends_in_s [] = false
ends_in_s (c ∷ []) = c == b's'
ends_in_s (_ ∷ c ∷ s) = ends_in_s (c ∷ s)

unfoldable pub speak_quantity : ℕ → Text → Text
unfolding ends_in_s decimal
speak_quantity quantity name =
    let plural = if quantity == 1 || ends_in_s name then name else name ++ codes "s" in
    decimal quantity ++ codes " " ++ plural

-- The parts behind the first of three or more: `, a, b, and c`.
unfoldable pub join_rest : List Text → Text
join_rest [] = []
join_rest (last ∷ []) = codes ", and " ++ last
join_rest (part ∷ next ∷ parts) = codes ", " ++ part ++ join_rest (next ∷ parts)

-- `none` is the IndexError of `parts[-1]` on no lines.
unfoldable pub join_parts : List Text → Option Text
unfolding join_rest
join_parts [] = none
join_parts (part ∷ []) = some part
join_parts (one ∷ two ∷ []) = some (one ++ codes " and " ++ two)
join_parts (one ∷ two ∷ three ∷ parts) = some (one ++ join_rest (two ∷ three ∷ parts))

unfoldable pub speak_lines : List Line → Option Text
unfolding join_parts speak_quantity
speak_lines lines = join_parts (map (λ l. speak_quantity l.quantity l.name) lines)
