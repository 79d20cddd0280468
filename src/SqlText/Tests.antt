-- ===== src/SqlText/Tests.antt =====
-- A text with comments, for `remove_comments` of sql/utils/sql_utils.py.
use dbshield.Common.{◌≡◌, refl}
use dbshield.SqlText.Comments.{mysql, pgsql, remove_comments}

quoted_test : remove_comments mysql "/* a */ drop # b\n table '-- c'" ≡ "drop  table '-- c'"
unfolding remove_comments
quoted_test = refl

pgsql_test : remove_comments pgsql "--a\n select 1" ≡ "select 1"
unfolding remove_comments
pgsql_test = refl
