-- ===== src/Store/RecentStickers.antt =====
-- The picker's recent stickers (store/db.rs).
use zca_desktop.Common.{
  not, ◌&&◌, List, [], ◌∷◌, map, ℤ, pos, neg_ℤ, max_ℤ, ◌==◌, text_equality, integer_equality,
  pair_equality, select, unwrap_or,
}
use zca_desktop.Common.Map
use zca_desktop.Common.Map.{Map}
use zca_desktop.Common.Table.{upsert}
use zca_desktop.Common.Table.Order.{order_by, limit_rows}
use zca_desktop.Types.{AccountId, Sticker}
use zca_desktop.Store.{Db, RecentStickerRow, recent_key}

unfoldable pub recent_row : AccountId → Sticker → ℤ → RecentStickerRow
recent_row account sticker used_at = record {
  account_id = account;
  sticker_id = sticker.id;
  cat_id = sticker.cat_id;
  sticker_type = sticker.sticker_type;
  url = sticker.url;
  used_at = used_at;
}

-- ON CONFLICT(account_id, sticker_id) DO UPDATE
unfoldable pub merge_recent : RecentStickerRow → RecentStickerRow → RecentStickerRow
merge_recent excluded r = record r {
  cat_id = excluded.cat_id;
  sticker_type = excluded.sticker_type;
  url = excluded.url;
  used_at = excluded.used_at;
}

unfoldable pub record_recent_sticker : Db → AccountId → Sticker → ℤ → Db
record_recent_sticker db account sticker used_at =
    let row = recent_row account sticker used_at in
    record db { recent_stickers = upsert recent_key row (merge_recent row) db.recent_stickers }

unfoldable pub to_sticker : RecentStickerRow → Sticker
to_sticker r = record {
  id = r.sticker_id;
  cat_id = r.cat_id;
  sticker_type = r.sticker_type;
  url = r.url;
}

unfoldable pub load_recent_stickers : Db → AccountId → ℤ → List Sticker
load_recent_stickers db account limit = map to_sticker (
    limit_rows limit
      (order_by (λ r. neg_ℤ r.used_at) (select (λ r. r.account_id == account) db.recent_stickers)))

-- GROUP BY cat_id, with MAX(used_at) of each group.
unfoldable pub last_uses : List RecentStickerRow → Map ℤ ℤ
last_uses [] = []
last_uses (r ∷ rows) =
    let rest = last_uses rows in
    Map.put r.cat_id (max_ℤ r.used_at (unwrap_or (Map.get r.cat_id rest) r.used_at)) rest

unfoldable pub load_recent_sticker_categories : Db → AccountId → ℤ → List ℤ
load_recent_sticker_categories db account limit =
    map (λ (g : ℤ × ℤ). g.0)
      (limit_rows limit (
        order_by (λ (g : ℤ × ℤ). neg_ℤ g.1)
          (last_uses
            (select (λ r. r.account_id == account && not (r.cat_id == pos 0)) db.recent_stickers))))
