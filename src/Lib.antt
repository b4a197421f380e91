-- ===== src/Lib.antt =====
-- Startkladde, the logbook of a gliding club's launches: flights, the cache of the database that the
-- views read, the list that shows each airtow's towflight as a flight of its own, and the aircraft
-- that a FLARM receiver sees departing and landing.
--
-- Parts and files. Paths are from the repository's root.
--   Model: the enums and data of src/model: Mode (Flight_Mode.cpp), FlightType (Flight_Type.cpp),
--     LaunchMethod, Plane, Person, FlightError (the enum Error of Flight.h), and FlarmNetRecord of
--     src/flarm/flarmNet.
--   Flight: src/model/FlightBase.h and Flight.cpp. Flight.antt has the fields and the status
--     functions, Flight/Actions departNow, landNow, landTowflightNow and performTouchngo with their
--     guards, Flight/Errors the error check with its cache, Flight/Order the comparison, and
--     Flight/Towflight the making of towflights. FlightColor is src/flightColor.cpp.
--   Container, Cache: src/db/cache. Cache/Objects has the lookups of planes and launch methods,
--     Cache/EntityList src/model/objectList/EntityList.h, and Cache/Flights, Cache/Planes and
--     Cache/LaunchMethods the lists and hashes of those objects with objectAdded, objectUpdated and
--     objectDeleted, which a database event calls; Cache/People and Cache/FlarmNet those of people and
--     FlarmNet records, whose state is Cache/Contents. Cache/Events is dbChanged over all tables,
--     with Events/Separation for what an event leaves alone and Events/Listing for the lists of planes
--     and launch methods, Cache/Refresh the reading of flights
--     and people again, Cache/Clear clear, and Cache/FlarmIds the lookups by FLARM identifier.
--     Cache/Index and Cache/Table are what the hashes by property and by identifier share.
--   FlightReference: src/FlightReference.cpp.
--   Flarm: src/flarm. Flarm/Record is FlarmRecord.cpp: what is known of one aircraft, changed by the
--     sentences that the receiver sends and by two timers; its signals are returned with the new
--     record. Record/Updown sets it beside an aircraft that is down or up, Record/Landing is about
--     the landings that it tells of, Record/History about the positions that it keeps.
--     Flarm/FlarmList is FlarmList.cpp, the records of all aircraft with their hash by identifier.
--     Flarm/Algorithms is src/flarm/algorithms: PlaneLookup and FlightLookup find the plane and the
--     flight of a FLARM identifier in the cache, PlaneIdentification offers the plane to the user, and
--     FlarmIdCheck (with FlarmIdUpdate.cpp in FlarmIdCheck/Update) keeps two planes from having one
--     identifier. The user's answers, canceling among them, are arguments, and an update of the
--     database that is not canceled ends with the cache's change of the plane.
--   FlightProxyList: src/model/flightList/FlightProxyList.cpp. FlightProxyList.antt has the index
--     functions and Handlers the slots that the source model's signals call. They read the launch
--     methods, planes and flights of the cache.
--   FlightFilter: src/model/flightList/FlightSortFilterProxyModel.cpp, the filter of the views.
--   ObjectList: src/model/objectList/AutomaticEntityList.h, a list that follows the database.
--   Migrator: src/db/migration/Migrator.cpp. A database is its tables, of any type, and the versions in
--     its migrations table. The migrations and the schema, which are generated or SQL, are the
--     parameter Migrations; a migration that throws returns false. Migrator/Pending is about
--     migrating and Migrator/Required about the table in the comment of getRequiredAction.
--   DbId, Text, Clock: src/db/dbId.cpp, and the functions of src/text.cpp and src/util/time.cpp that
--     the flights use.
--   Qt: the parameters. Date and time values, time zones, and the text functions trimmed and toLower
--     are not part of the repository, so the record Qt holds them, and the laws that theorems rely on
--     are the hypotheses IsTimeOrder (comparing times is a strict weak order) and KeepsOrder (cutting
--     off the seconds of UTC times keeps their order). Examples/Setting has an instance in seconds
--     that meets both. QList is List, QHash and QMultiHash are association lists with the newest
--     entry first, by their documentation.
--   Nmea: src/nmea. Nmea.antt has the checksum, the checks of the constructor of NmeaSentence and the
--     values of a PflaaSentence, which Flarm/Record reads; Nmea/Decoder is NmeaDecoder.cpp, whose
--     loop runs on the length of the buffer. A text is a list of characters, and QString's
--     decoding of UTF-8 and reading of numbers are the parameter Numerals. Nmea/Checksum is about the checksum, Decoder/Chunks
--     about data that comes in chunks.
--   Statistics: src/statistics/PlaneLog.cpp: the entries of the log of one plane and of all planes,
--     with Flight::collectiveLogEntryPossible. std::sort and QSet are the parameter Sorting, with the
--     law IsSorting. PlaneLog/Entries is about the flights that share an entry, PlaneLog/Creation
--     about the assertion that an entry has flights; Examples/Statistics has an insertion sort.
--     Statistics/LaunchMethods is LaunchMethodStatistics.cpp, with std::sort as an argument.
--   DbManager: connect and disconnect of src/db/DbManager.cpp. An exception is a value (Result). The
--     server, the network and the user are a state of any type, and what they do next is a function
--     of it (Surroundings); the refresh of the cache is a function of the database and of the cache
--     before it; an operation that throws may leave any database and any cache. The
--     dialog of grantPermissions is shown until the user cancels, so Surroundings has the number of
--     passwords that are tried as the fuel. DbManager/After is the reasoning on steps that throw,
--     DbManager/Closed is about grantPermissions, DbManager/Settled and DbManager/Undisturbed about
--     the end of connect. The migrator of the worker is that of Migrator.
--   Database: src/db/Database.cpp. Database.antt has getObject, createObject, createObjects,
--     updateObject and deleteObject for any class that provides what the comment above the template
--     instantiations asks for, the record Entity; Flight/Row and Model/Plane, LaunchMethod, Person
--     and FlarmNetRecord/Row fill it with the columns and values of those classes. The server and
--     QVariant are not part of the repository: Database/Sql has them as the records Connection and
--     Values, with the laws IsServer (a SELECT reads what INSERT, REPLACE and DELETE by primary key
--     have left) and IsFaithful (a stored value is read back). Database/Objects is about reading
--     after writing, Database/Flights about getPreparedFlights, whose condition is a function of a
--     row. Examples/Server has a server in memory that meets the laws.
--   Prelude: shared names, tests on numbers, lists and integers. Examples: runs on concrete flights.
--
-- Correspondence. A function that changes an object returns the new object, with its Boolean result
-- where it has one. The `mutable` caches of Flight are fields. NotFoundException and NULL are `none`,
-- and so is a failed assertion of QList. A reason that is written through a pointer is the `some` of
-- why_not_depart and its like. The clock and the own location are arguments. A slot of
-- FlightProxyList returns the notifications that it sends with the state.
-- Bounds. dbId is a natural number, 0 being invalid. Counts of landings and model indices are
-- integers: their overflow at 2 ^ 31 is not modelled. qHash wraps at 2 ^ 32. Loops are recursion
-- on lists. Two loops run on fuel, the length of what they shorten in every round: the one that
-- truncates the history of a FLARM record and the one that takes lines off the buffer of the decoder;
-- that this is enough is part of Record/History and of Decoder/Chunks. A NULL that is dereferenced
-- makes the event of a FlarmNet record return `none`.
--
-- Not modelled: display texts and translations, the other queries of the database, the refreshing
-- of the cache but for flights and people, the pilot log, windows, threads (each operation of the cache holds its
-- mutex), settings but for those that the error check and the range of the FLARM records read.
pub mod Prelude
pub mod Qt
pub mod DbId
pub mod Text
pub mod Clock
pub mod Model
pub mod FlightColor
pub mod Flight
pub mod Container
pub mod Cache
pub mod FlightReference
pub mod FlightProxyList
pub mod FlightFilter
pub mod ObjectList
pub mod Migrator
pub mod Flarm
pub mod Database
pub mod DbManager
pub mod Statistics
pub mod Nmea
pub mod Examples
