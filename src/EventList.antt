-- ===== src/EventList.antt =====
-- ase/eventlist.hh with the binary lookups of ase/utils.hh. Order: comparison functions. Lookup: the
-- binary lookups, and Lookup/Laws against any sorted range. List: EventList and OrderedEventList.
pub mod Order
pub mod Lookup
pub mod Sorted
pub mod List
pub mod Update
pub mod Insert
pub mod Lookups
pub mod Remove
pub mod Sort
pub mod Run
pub mod Tests
