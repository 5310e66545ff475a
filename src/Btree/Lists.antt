-- ===== src/Btree/Lists.antt =====
-- A tree that meets the interface: the items in order, with a proof of their order.
use ntee_db.Base.{refl, List, [], length, get_elem?}
use ntee_db.Order.{Order}
use ntee_db.Btree.{Btree, IsBtree, IsSorted, find, put, without, from, back_from}
use ntee_db.Btree.Items.{put-IsSorted, without-IsSorted}

module _ {A : Type 0} (o : Order A) where
  abbrev pub lists : Btree A
  lists = record {
    Tree = (xs : List A) × IsSorted o.less xs;
    new = ([], tt);
    scan = λ t. t.0;
    get = λ t a. find o.less a t.0;
    set = λ t a. (put o.less a t.0, put-IsSorted o a t.0 t.1);
    delete = λ t a. (without o.less a t.0, without-IsSorted o a t.0 t.1);
    load = λ t a. (put o.less a t.0, put-IsSorted o a t.0 t.1);
    len = λ t. length t.0;
    at = λ t i. get_elem? t.0 i;
    ascend = λ t a. from o.less a t.0;
    descend = λ t a. back_from o.less a [] t.0;
  }

  -- The interface can be met.
  pub lists-IsBtree : IsBtree o.less lists
  lists-IsBtree = record {
    scan-new = refl;
    scan-set = λ t a. refl;
    scan-delete = λ t a. refl;
    scan-load = λ t a. refl;
    get-scan = λ t a. refl;
    len-scan = λ t. refl;
    at-scan = λ t i. refl;
    ascend-scan = λ t a. refl;
    descend-scan = λ t a. refl;
    scan-IsSorted = λ t. t.1;
  }
